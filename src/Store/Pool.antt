-- ===== src/Store/Pool.antt =====
-- The descriptor pool of src/m65ftp_lib.c: `s_files[].in_use`, `s_file_count` and the stack `s_free_fds`.
use mega65fs.Base.{
  ℕ, ◌+◌, ◌≤◌, ◌<◌, ◌≡◌, refl, subst, Bool, true, false, not, ◌||◌, List, [], ◌∷◌, arith, ◌==◌, suc,
  length, ap, if◌then◌else◌, zero,
}
use mega65fs.Store.{FileInfo, Store, max_files, update}

abbrev pub is_free : ℕ → List ℕ → Bool
is_free fd [] = false
is_free fd (f ∷ fds) = fd == f || is_free fd fds

abbrev pub IsDistinct : List ℕ → Type 0
IsDistinct [] = Unit {0}
IsDistinct (f ∷ fds) = (is_free f fds ≡ false) × IsDistinct fds

abbrev pub Below : ℕ → List ℕ → Type 0
Below n [] = Unit {0}
Below n (f ∷ fds) = (f < n) × Below n fds

-- Exactly the descriptors on the stack are closed, each stands there once, and the pool is within
-- its limit.
pub record IsPool {R : Type 0} (s : Store R) : Type 0 where
  pub bounded : s.file_count ≤ max_files
  pub distinct : IsDistinct s.free_fds
  pub below : Below s.file_count s.free_fds
  pub exact : (fd : ℕ) → fd < s.file_count → (s.files fd).in_use ≡ not (is_free fd s.free_fds)

Below-mono : (fds : List ℕ) (m n : ℕ) → m ≤ n → Below m fds → Below n fds
Below-mono [] m n h b = tt
Below-mono (f ∷ fds) m n h b = (omega arith, Below-mono fds m n h b.1)

above_not_free : (fds : List ℕ) (n : ℕ) → Below n fds → is_free n fds ≡ false
above_not_free [] n b = refl
above_not_free (f ∷ fds) n b = ground (arith, above_not_free fds n b.1)

without : ℕ → List ℕ → List ℕ
without n [] = []
without n (f ∷ fds) = if n == f then without n fds else f ∷ without n fds

without_free : (n i : ℕ) (fds : List ℕ) → is_free i fds ≡ false → is_free i (without n fds) ≡ false
unfolding without
without_free n i [] h = refl
without_free n i (f ∷ fds) h = ground (arith, without_free n i fds)

without-IsDistinct : (n : ℕ) (fds : List ℕ) → IsDistinct fds → IsDistinct (without n fds)
unfolding without
without-IsDistinct n [] d = tt
without-IsDistinct n (f ∷ fds) d =
    ground (arith, without-IsDistinct n fds d.1, without_free n f fds d.0)

without-Below : (n : ℕ) (fds : List ℕ) → Below (suc n) fds → Below n (without n fds)
unfolding without
without-Below n [] b = tt
without-Below n (f ∷ fds) b = ground (arith, without-Below n fds b.1)

without_absent : (n : ℕ) (fds : List ℕ) → is_free n fds ≡ false → without n fds ≡ fds
unfolding without
without_absent n [] h = refl
without_absent n (f ∷ fds) h = ground (arith, without_absent n fds)

length-without : (n : ℕ) (fds : List ℕ) → IsDistinct fds → length fds ≤ suc (length (without n fds))
unfolding without
length-without n [] d = omega arith
length-without n (f ∷ fds) d = ground (
  arith,
  length-without n fds d.1,
  without_absent f fds d.0,
  ap length (without_absent f fds d.0),
)

-- Distinct numbers below n are n at most.
pub pigeonhole : (n : ℕ) (fds : List ℕ) → IsDistinct fds → Below n fds → length fds ≤ n
pigeonhole zero [] d b = omega arith
pigeonhole zero (f ∷ fds) d b = absurd (omega arith)
pigeonhole (suc n) fds d b = omega (
  arith,
  length-without n fds d,
  pigeonhole n (without n fds) (without-IsDistinct n fds d) (without-Below n fds b),
)

module _ {R : Type 0} where
  pub pop-IsPool :
      (s : Store R) (fd : ℕ) (fds : List ℕ) (fi : FileInfo)
      → s.free_fds ≡ fd ∷ fds
      → IsPool s
      → fi.in_use ≡ true
      → IsPool (record s { free_fds = fds; files = update s.files fd fi })
  pop-IsPool s fd fds fi e v u =
      let d : IsDistinct (fd ∷ fds) = subst IsDistinct e v.distinct in
      let b : Below s.file_count (fd ∷ fds) = subst (Below s.file_count) e v.below in
      record {
        bounded = v.bounded;
        distinct = d.1;
        below = b.1;
        exact = λ i h. ground (arith, v.exact i, e, d.0);
      }

  pub grow-IsPool :
      (s : Store R) (fi : FileInfo)
      → s.free_fds ≡ []
      → s.file_count < max_files
      → IsPool s
      → fi.in_use ≡ true
      → IsPool (record s { file_count = s.file_count + 1; files = update s.files s.file_count fi })
  grow-IsPool s fi e h v u = record {
    bounded = omega arith;
    distinct = v.distinct;
    below = Below-mono s.free_fds s.file_count (s.file_count + 1) (omega arith) v.below;
    exact = λ i l. ground (arith, v.exact i, above_not_free s.free_fds s.file_count v.below);
  }

  -- Closing pushes the slot.
  pub push-IsPool :
      (s : Store R) (fd : ℕ) (fi : FileInfo)
      → fd < s.file_count
      → (s.files fd).in_use ≡ true
      → IsPool s
      → fi.in_use ≡ false
      → IsPool (record s { free_fds = fd ∷ s.free_fds; files = update s.files fd fi })
  push-IsPool s fd fi h u v c = record {
    bounded = v.bounded;
    distinct = (ground (arith, v.exact fd), v.distinct);
    below = (h, v.below);
    exact = λ i l. ground (arith, v.exact i);
  }

  -- A closed descriptor always fits on the stack.
  pub free_fds_room :
      (s : Store R) (fd : ℕ)
      → fd < s.file_count
      → (s.files fd).in_use ≡ true
      → IsPool s
      → length s.free_fds < max_files
  free_fds_room s fd h u v =
      let absent : is_free fd s.free_fds ≡ false = ground (arith, v.exact fd) in
      omega (
        arith,
        v.bounded,
        pigeonhole s.file_count (fd ∷ s.free_fds) (absent, v.distinct) (h, v.below),
      )
