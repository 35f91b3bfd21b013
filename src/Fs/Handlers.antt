-- ===== src/Fs/Handlers.antt =====
-- The answers of the FUSE callbacks of src/mega65fs.c.
use mathlib.Core.List.{append-nil, append_assoc}
use mega65fs.Base.{
  ℕ, zero, suc, ◌+◌, ◌-◌, ◌≤◌, ◌<◌, ◌≡◌, refl, ap, sym, ◌∙◌, true, false, inl, inr, List, [], ◌∷◌,
  ◌++◌, arith, leb, if◌then◌else◌, Bool-cases, drop, ◌*◌,
}
use mega65fs.Fs.{space, emit_entries, Filler}
use mega65fs.Cache.{DirectoryEntry}

-- For used bytes that do not exceed the total: the free blocks that statfs reports and the used
-- bytes together stay within the total.
pub space_lem : (total used : ℕ) → used ≤ total → (space total used).f_bfree * 4096 + used ≤ total
unfolding space
space_lem total used h = ground arith

-- A filler that collects the names and never fills up.
abbrev pub collect : Filler (List (List ℕ × ℕ))
collect name st next names = (false, names ++ ((name, next) ∷ []))

-- The valid entries with the offsets that follow them, from the n-th on.
abbrev pub numbered : ℕ → List DirectoryEntry → List (List ℕ × ℕ)
numbered n [] = []
numbered n (e ∷ es) = if e.valid then (e.name, n + 1) ∷ numbered (n + 1) es else numbered n es

drop_nil : (n : ℕ) → drop {A = List ℕ × ℕ} n [] ≡ []
drop_nil zero = refl
drop_nil (suc n) = refl

-- With a buffer that never fills up, readdir from an offset on passes on exactly the valid entries
-- from that offset on, in order, each with the offset that follows it.
pub emit_entries-collect :
    (offset n : ℕ) (es : List DirectoryEntry) (names : List (List ℕ × ℕ))
    → emit_entries collect offset es n names ≡ names ++ drop (offset - n) (numbered n es)
unfolding emit_entries
emit_entries-collect offset n [] names =
    sym (ap (◌++◌ names) (drop_nil (offset - n)) ∙ append-nil names)
emit_entries-collect offset n (e ∷ es) names = elim (Bool-cases e.valid) [
  | inr w ↦ rw w (emit_entries-collect offset n es names)
  | inl w ↦ elim (Bool-cases (leb offset n)) [
    | inl z ↦
        rw (w, z, emit_entries-collect offset (n + 1) es (names ++ ((e.name, n + 1) ∷ [])))
          (let a : offset - n ≡ 0 = omega (arith, le z) in
            let b : offset - (n + 1) ≡ 0 = omega (arith, le z) in
            rw (a, b) (append_assoc names ((e.name, n + 1) ∷ []) (numbered (n + 1) es)))
    | inr z ↦
        rw (w, z, emit_entries-collect offset (n + 1) es names)
          (let a : offset - n ≡ suc (offset - (n + 1)) = omega (arith, gt z) in rw a refl)
  ]
]
  where
    le : leb offset n ≡ true → offset ≤ n
    le z = ground (arith, z)

    gt : leb offset n ≡ false → n < offset
    gt z = ground (arith, z)
