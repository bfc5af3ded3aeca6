-- ===== src/ReplicaManager/Offsets.antt =====
-- The offsets of the replicas, and how they move on a log.
use vector_database.Prelude.{
  ℕ, ◌≤◌, ◌≡◌, refl, sym, subst, ◌∙◌, Bool, true, false, if◌then◌else◌, Text, text_eq, nat_eq,
  text_beq_iff, ◌==◌, arith, Bool-cases, inl, inr,
}
use vector_database.Prelude.Map.{assign, find-assign, find-assign_self}
use vector_database.Prelude.Set.{member}
use vector_database.ReplicaManager.{ReplicaManager, offsets_at, offset_at, with_offset, retries}

-- the offset that was written, and the others of the table
pub offset_at-with_offset :
    {W : Type 0} (m : ReplicaManager W) (table replica r : Text) (o : ℕ) (w : W)
    → offset_at (record (with_offset m table replica o) { network = w }) table r
      ≡ (if replica == r then o else offset_at m table r)
offset_at-with_offset m table replica r o w =
    rw
      (
        offset_at,
        offsets_at,
        find-assign_self table (assign replica o (offsets_at m table)) m.wal_offsets,
      )
      (ground (arith, find-assign replica r o (offsets_at m table)))

pub third_try : member 2 retries ≡ true
unfolding member
third_try = refl

pub unfailed : {a b : Bool} → (a ≡ true → b ≡ true) → b ≡ false → a ≡ false
unfailed {a} {b} h e = ground arith

-- How an offset moves on a log of `n` entries: never back, never beyond the log, and not at all from
-- beyond it.
pub record Moved (n old new : ℕ) : Type 0 where
  pub within : old ≤ n → new ≤ n
  pub beyond : n ≤ old → new ≡ old
  pub forward : old ≤ new

pub Moved-refl : (n o : ℕ) → Moved n o o
Moved-refl n o = record { within = λ h. h; beyond = λ _. refl; forward = omega arith }

pub Moved-trans : (n a b c : ℕ) → Moved n a b → Moved n b c → Moved n a c
Moved-trans n a b c h k = record {
  within = λ le. k.within (h.within le);
  beyond = λ le. k.beyond (omega (arith, h.forward, le)) ∙ h.beyond le;
  forward = omega (arith, h.forward, k.forward);
}

module _ {W : Type 0} where
  pub at_self :
      (m : ReplicaManager W) (table replica : Text) (o old : ℕ)
      → offset_at m table replica ≡ (if replica == replica then o else old)
      → offset_at m table replica ≡ o
  at_self m table replica o old e = ground (arith, e, text_beq_iff replica replica)

  pub Moved-written :
      (m m1 : ReplicaManager W) (table replica r : Text) (o : ℕ) {n : ℕ}
      → offset_at m1 table r ≡ (if replica == r then o else offset_at m table r)
      → Moved n (offset_at m table replica) o
      → Moved n (offset_at m table r) (offset_at m1 table r)
  Moved-written m m1 table replica r o {n} at h = elim (Bool-cases (replica == r)) [
    | inl same ↦
        let name : replica ≡ r = (text_beq_iff replica r).0 same in
        subst (λ x. Moved n (offset_at m table r) x) (sym (at ∙ rw same refl))
          (subst (λ x. Moved n (offset_at m table x) o) name h)
    | inr other ↦
        subst (λ x. Moved n (offset_at m table r) x) (sym (at ∙ rw other refl)) (Moved-refl n _)
  ]
