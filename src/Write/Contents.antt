-- ===== src/Write/Contents.antt =====
-- What the direct branch of m65ftp_pwrite of src/m65ftp_lib.c leaves on the card.
use mega65fs.Base.{
  subst, take, drop, [], ◌∷◌, ltb, leb, ◌-◌, ◌+◌, ◌%◌, ◌≢◌, ◌<◌, length-drop, length-drop, ℕ, zero,
  suc, ◌+◌, ◌-◌, ◌≤◌, ◌<◌, ◌≡◌, ◌≢◌, refl, ap, subst, ◌∙◌, true, false, inl, inr, Option, some,
  List, [], ◌∷◌, ◌&&◌, arith, leb, ltb, if◌then◌else◌, length, get_or, take, drop, ◌*◌, ◌%◌, ◌>>=◌,
}
use mega65fs.Card.{Card, Library}
use mega65fs.Chain.{cluster_size}
use mega65fs.Chain.Disk.{Disk, InArea, Linked}
use mega65fs.Write.{Position, write_step, write_loop}
use mega65fs.Write.Rounds.{patched-drop, piece}
use mega65fs.Write.Bytes.{bytes, Stands, Filled}
use mega65fs.Write.Effect.{step_lem}

module _ {R : Type 0} ⦃lib : Library R⦄ (P : Card R → Type 0) (fat : Card R → ℕ → ℕ)
    (sector : Card R → ℕ → List ℕ) (g : Card R) (disk : Disk lib P fat sector g) (chain : ℕ → ℕ)
    (count : ℕ) (area : InArea g chain count) where
  Filled-drop :
      (cur n : ℕ) (bs : List ℕ) (c c1 c2 : Card R)
      → n ≤ length bs
      → Filled P fat sector g chain count cur (take n bs) c c1
      → Filled P fat sector g chain count (cur + n) (drop n bs) c1 c2
      → Filled P fat sector g chain count cur bs c c2
  Filled-drop cur n bs c c1 c2 h f f' = record {
    ok = f'.ok;
    table = λ k. f'.table k ∙ f.table k;
    bytes_there = λ x k.
        f'.bytes_there x k
        ∙ ap
            (λ (b : ℕ).
              if leb (cur + n) x && ltb x (cur + n + length (drop n bs))
              then get_or (drop n bs) (x - (cur + n)) 0
              else b)
            (f.bytes_there x k)
        ∙ patched-drop (bytes sector g chain c) cur n bs x h;
    others = λ m. elim (f'.others m) [
      | inr there ↦ inr there
      | inl e ↦ elim (f.others m) [ inl e' ↦ inl (e ∙ e') | inr there ↦ inr there ]
    ];
  }

  -- What the loop does after a round.
  write_more :
      (fuel n b : ℕ) (p q : Position) (rest : List ℕ) (c c1 : Card R)
      {r : Option (Option Position × Card R)}
      → write_step (b ∷ rest) p c ≡ some ((true, q), c1)
      → q.total_written ≡ p.total_written + n
      → write_loop fuel (drop n (b ∷ rest)) q c1 ≡ r
      → write_loop (suc fuel) (b ∷ rest) p c ≡ r
  unfolding write_loop
  write_more fuel n b p q rest c c1 e total e' =
      let z : q.total_written - p.total_written ≡ n = omega (arith, total) in
      rw (◌>>=◌, e, z, e') refl

  pieces :
      (fuel cur : ℕ) (bs : List ℕ)
      → length bs < suc fuel
      → 0 < length bs
      → length bs - piece cur bs < fuel
  pieces fuel cur bs lt some_bs = ground arith

  -- With fuel for each byte the loop writes them all.
  pub loop_lem :
      (fuel i : ℕ) (p : Position) (rest : List ℕ) (c : Card R)
      → length rest < fuel
      → ((p.current_offset % 512 ≢ 0 → 0 < length rest) → Stands g chain count p i)
      → p.current_offset + length rest ≤ count * cluster_size g
      → Linked (fat c) chain count
      → P c
      → (q : Position) × (j : ℕ) × (c' : Card R) × (write_loop fuel rest p c ≡ some (some q, c'))
        × (q.current_offset ≡ p.current_offset + length rest)
        × (q.total_written ≡ p.total_written + length rest)
        × ((q.current_offset % 512 ≡ 0) → Stands g chain count q j)
        × Filled P fat sector g chain count p.current_offset rest c c'
  unfolding write_loop
  loop_lem zero i p rest c lt here inside linked ok = absurd (omega arith)
  loop_lem (suc fuel) i p [] c lt here inside linked ok = (
    p,
    i,
    c,
    refl,
    omega arith,
    omega arith,
    (λ e. here (λ k. absurd (k e))),
    record {
      ok = ok;
      table = λ k. refl;
      bytes_there = λ x h.
          let w : (leb p.current_offset x && ltb x (p.current_offset + 0)) ≡ false = ground arith in
          rw w refl;
      others = λ m. inl refl;
    },
  )
  loop_lem (suc fuel) i p (b ∷ rest) c lt here inside linked ok =
      let bs : List ℕ = b ∷ rest in
      let n = piece p.current_offset bs in
      let le : n ≤ length bs = ground arith in
      let (q, j, c1, e, cur, total, there, f) =
        step_lem P fat sector g disk chain count area p i bs c (here (λ k. omega arith))
          (omega arith) inside linked ok in
      let linked' : Linked (fat c1) chain count = λ k h. f.table (chain k) ∙ linked k h in
      let size : length (drop n bs) ≡ length bs - n = length-drop n bs in
      let (q', j', c2, e', cur', total', there', f') =
        loop_lem fuel j q (drop n bs) c1
          (rw size (pieces fuel p.current_offset bs lt (omega arith)))
          (λ h. there (λ k. omega (arith, h k, size))) (omega (arith, cur, size, le, inside))
          linked' f.ok in
      (
        q',
        j',
        c2,
        write_more fuel n b p q rest c c1 e total e',
        omega (arith, cur, cur', size, le),
        omega (arith, total, total', size, le),
        there',
        Filled-drop p.current_offset n bs c c1 c2 le f
            (subst (λ (k : ℕ). Filled P fat sector g chain count k (drop n bs) c1 c2) cur f'),
      )
