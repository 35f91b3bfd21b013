-- ===== src/Truncate/Shorter.antt =====
-- m65ftp_ftruncate of src/m65ftp_lib.c as a whole, on a file on the card that has clusters enough
-- for its new length.
use mega65fs.Base.{
  divide_lem, subst, to_nat, ℕ, suc, ◌+◌, ◌-◌, ◌/◌, ◌^◌, ◌≤◌, ◌<◌, ◌≡◌, ◌≢◌, refl, ap, sym, ◌∙◌,
  true, false, inl, inr, some, List, [], ◌∷◌, ◌++◌, ◌&&◌, arith, ◌==◌, ltb, if◌then◌else◌,
  Bool-cases, length, no_cluster, u32, pos, ◌>>=◌, ◌>>◌, length-append,
}
use native.Mathlib.Nat.{div-lt_iff_lt-mul}
use mega65fs.Card.{Card, Library}
use mega65fs.Store.{FileInfo}
use mega65fs.Chain.{cluster_size, first_data_sector, count_cluster_chain}
use mega65fs.Chain.Disk.{Disk, Kept, Kept-refl}
use mega65fs.Chain.Walks.{count_cluster_chain_lem, step_along}
use mega65fs.Chain.Freed.{Runs, has, Distinct, Runs-frame, Frees}
use mega65fs.Chain.Split.{Runs-IsChain}
use mega65fs.Flush.{has_entry}
use mega65fs.Entry.{set_entry_file_size}
use mega65fs.Entry.Fields.{length-pack32}
use mega65fs.Write.Stored.{entry_sector}
use mega65fs.Truncate.{needed_clusters, rewound, shrink_chain, finish_truncate, truncate_direct}
use mega65fs.Truncate.Shrink.{Cut, Cut-whole, Cut-frame, shrink_lem, follows}

-- The descriptor with the new size, rewound.
abbrev pub resized : FileInfo → ℕ → FileInfo
resized fi n = rewound (if has_entry fi then set_entry_file_size fi n else fi) fi.first_cluster n

module _ {R : Type 0} (g : Card R) where
  -- The entry's copy is one sector, and that sector is one of the data area.
  pub record EntryOnCard (fi : FileInfo) : Type 0 where
    pub data_area : first_data_sector g ≤ entry_sector g fi
    pub length_buf : length fi.dir_sector_buf ≡ 512

module _ {R : Type 0} ⦃lib : Library R⦄ (P : Card R → Type 0) (fat : Card R → ℕ → ℕ)
    (sector : Card R → ℕ → List ℕ) (g : Card R) (disk : Disk lib P fat sector g)
    (frees : Frees lib P fat sector) (fi : FileInfo) where
  entry_eq :
      (n : ℕ) (c : Card R)
      → has_entry fi ≡ true
      → P c
      → finish_truncate fi fi.first_cluster n c
        ≡ some (
          (pos 0, rewound (set_entry_file_size fi (u32 n)) fi.first_cluster (u32 n)),
          lib.execute_write_queue
              (lib.write_sector
                (entry_sector g fi)
                (set_entry_file_size fi (u32 n)).dir_sector_buf
                c).1,
        )
  unfolding finish_truncate set_entry_file_size
  entry_eq n c w ok = rw (w, (disk.geometry c ok).partition_start) refl

  no_entry_eq :
      (n : ℕ) (c : Card R)
      → has_entry fi ≡ false
      → finish_truncate fi fi.first_cluster n c
        ≡ some ((pos 0, rewound fi fi.first_cluster (u32 n)), c)
  unfolding finish_truncate
  no_entry_eq n c w = rw w refl

  length_entry :
      (n : ℕ) → length (set_entry_file_size fi n).dir_sector_buf ≡ length fi.dir_sector_buf
  unfolding set_entry_file_size
  length_entry n = length-pack32 fi.dir_sector_buf (to_nat fi.dir_sector_offset + 0x1c) n

  pub finish_lem :
      (n : ℕ) (c : Card R)
      → n < 2 ^ 32
      → (has_entry fi ≡ true → EntryOnCard g fi)
      → P c
      → (c' : Card R) × (finish_truncate fi fi.first_cluster n c ≡ some ((pos 0, resized fi n), c'))
        × P c'
        × ((k : ℕ) → fat c' k ≡ fat c k)
        × ((m : ℕ)
            → sector c' m ≡ (
                if has_entry fi && m == entry_sector g fi
                then (set_entry_file_size fi n).dir_sector_buf
                else sector c m))
  finish_lem n c small entry ok =
      let z : u32 n ≡ n = omega arith in
      elim (Bool-cases (has_entry fi)) [
        | inr w ↦ rw w (c, rw z at (no_entry_eq n c w), ok, (λ k. refl), (λ m. refl))
        | inl w ↦
            let e = entry w in
            let b = (set_entry_file_size fi n).dir_sector_buf in
            let m = entry_sector g fi in
            let (_, wrote) =
              disk.write_sector m b c e.data_area (length_entry n ∙ e.length_buf) ok in
            let c1 = (lib.write_sector m b c).1 in
            let kept = frees.execute_write_queue c1 wrote.ok in
            rw w (
              lib.execute_write_queue c1,
              rw z at (entry_eq n c w ok),
              kept.ok,
              (λ k. kept.table k ∙ wrote.table k),
              (λ k. kept.sectors k ∙ wrote.sectors k),
            )
      ]

  -- How many clusters n bytes take.
  abbrev pub needed_of : ℕ → Card R → ℕ
  needed_of n c = if n == 0 then 0 else u32 ((n + cluster_size c - 1) / cluster_size c)

  pub needed_clusters_lem :
      (n : ℕ) (c : Card R) → 0 < cluster_size c → needed_clusters n c ≡ some (needed_of n c, c)
  unfolding needed_clusters
  needed_clusters_lem n c size = elim (Bool-cases (n == 0)) [
    | inl w ↦ rw w refl
    | inr w ↦ rw (w, ◌>>=◌, divide_lem (n + cluster_size c - 1) (cluster_size c) c size) refl
  ]

  -- The run of the program, where the clusters suffice.
  abbrev Enough : ℕ → ℕ → ℕ → Card R → Card R → ℕ → Type 0
  Enough fuel n current c c1 needed = truncate_direct fuel fi n c ≡ (
      if ltb needed current
      then (shrink_chain fuel fi.first_cluster needed >> finish_truncate fi fi.first_cluster n) c1
      else finish_truncate fi fi.first_cluster n c1)

  truncate_direct-Enough :
      (fuel n current last : ℕ) (c c1 : Card R)
      → 0 < cluster_size c
      → 0 < needed_of n c
      → needed_of n c ≤ current
      → no_cluster fi.first_cluster ≡ false
      → count_cluster_chain fuel fi.first_cluster c ≡ some ((current, last), c1)
      → Enough fuel n current c c1 (needed_of n c)
  unfolding truncate_direct
  truncate_direct-Enough fuel n current last c c1 size pos_needed le live counted =
      let y : (needed_of n c == 0) ≡ false = ground arith in
      let x : ltb current (needed_of n c) ≡ false = ground arith in
      elim (Bool-cases (ltb (needed_of n c) current)) [
        | inl w ↦ rw (◌>>=◌, needed_clusters_lem n c size, y, live, counted, x, w) refl
        | inr w ↦ rw (◌>>=◌, needed_clusters_lem n c size, y, live, counted, x, w) refl
      ]

  -- There is a byte in a cluster.
  pub some_size : (c : Card R) → P c → 0 < cluster_size c
  some_size c ok =
      let spc = disk.some_sectors in omega (arith, spc, (disk.geometry c ok).sectors_per_cluster)

  pub needed_lem :
      (n k : ℕ) (c : Card R)
      → 0 < n
      → n < 2 ^ 32
      → k ≡ (n + cluster_size g - 1) / cluster_size g
      → P c
      → needed_of n c ≡ k
  needed_lem n k c some_bytes small e ok =
      let z : (n == 0) ≡ false = ground arith in
      let spc = disk.some_sectors in
      rw (z, (disk.geometry c ok).sectors_per_cluster, e)
        (let q : (n + cluster_size g - 1) / cluster_size g < 2 ^ 32 = grind (
          arith,
          div-lt_iff_lt-mul {k = cluster_size g} {x = n + cluster_size g - 1} {y = 2 ^ 32}
              (omega (arith, spc)),
        ) in
          let r : u32 ((n + cluster_size g - 1) / cluster_size g)
              ≡ (n + cluster_size g - 1) / cluster_size g =
            omega (arith, q) in
          r)

  -- The chain is cut, if there is anything behind the cut.
  cut_lem :
      (fuel n m : ℕ) (xs ys : List ℕ) (c c1 : Card R)
      → Enough fuel n (1 + length (xs ++ ys)) c c1 (suc (length xs))
      → fi.first_cluster ≡ m
      → Runs (fat c1) m (m ∷ (xs ++ ys))
      → Distinct (m ∷ (xs ++ ys))
      → ((j : ℕ) → has j (m ∷ (xs ++ ys)) ≡ true → fat c1 j ≢ 0)
      → length (xs ++ ys) < fuel
      → P c1
      → (c2 : Card R) × (truncate_direct fuel fi n c ≡ finish_truncate fi fi.first_cluster n c2)
        × Cut P fat m xs ys c1 c2
        × ((k : ℕ) → sector c2 k ≡ sector c1 k)
  cut_lem fuel n m xs [] c c1 run first runs d used enough ok =
      let l = length-append xs [] in
      let w : ltb (suc (length xs)) (1 + length (xs ++ [])) ≡ false = ground (arith, l) in
      (c1, run ∙ rw w refl, Cut-whole m xs c1 runs ok, (λ k. refl))
  cut_lem fuel n m xs (y ∷ ys) c c1 run first runs d used enough ok =
      let l = length-append xs (y ∷ ys) in
      let w : ltb (suc (length xs)) (1 + length (xs ++ y ∷ ys)) ≡ true = ground (arith, l) in
      let (c2, shrunk, cut, same) =
        shrink_lem P fat sector g disk frees fuel m xs (y ∷ ys) c1 (omega (arith, l)) runs d used
          ok in
      let there : shrink_chain fuel fi.first_cluster (suc (length xs)) c1 ≡ some (tt, c2) =
        subst (λ k. shrink_chain fuel k (suc (length xs)) c1 ≡ some (tt, c2)) (sym first) shrunk in
      (c2, run ∙ rw (w, ◌>>=◌, there) refl, cut, same)

  -- A file whose clusters are m, xs and ys, where m and xs are as many as a length of 1 to 2^32 - 1
  -- bytes takes, on a card where its directory entry, if it has a known place, is in the data area:
  -- truncating it to that length succeeds with fuel for the clusters, the file keeps m and xs, the
  -- clusters ys are free, the rest of the table is the same, and no sector has changed but that of
  -- the entry, which holds the new size.
  pub truncate_direct-Cut :
      (fuel n m : ℕ) (xs ys : List ℕ) (c : Card R)
      → P c
      → 0 < n
      → n < 2 ^ 32
      → suc (length xs) ≡ (n + cluster_size g - 1) / cluster_size g
      → fi.first_cluster ≡ m
      → Runs (fat c) m (m ∷ (xs ++ ys))
      → Distinct (m ∷ (xs ++ ys))
      → ((j : ℕ) → has j (m ∷ (xs ++ ys)) ≡ true → fat c j ≢ 0)
      → length (xs ++ ys) < fuel
      → (has_entry fi ≡ true → EntryOnCard g fi)
      → (c' : Card R) × (truncate_direct fuel fi n c ≡ some ((pos 0, resized fi n), c'))
        × Cut P fat m xs ys c c'
        × ((k : ℕ)
            → sector c' k ≡ (
                if has_entry fi && k == entry_sector g fi
                then (set_entry_file_size fi n).dir_sector_buf
                else sector c k))
  truncate_direct-Cut fuel n m xs ys c ok some_bytes small count first runs d used enough entry =
      let (_, live, r) = runs in
      let (c1, counted, k1) =
        count_cluster_chain_lem (Kept P fat sector c) (fat c) (follows P fat sector g disk frees c)
          fuel m (xs ++ ys) c enough (Runs-IsChain (fat c) m (xs ++ ys) r) (Kept-refl c ok) in
      let l = length-append xs ys in
      let e = needed_lem n (suc (length xs)) c some_bytes small count ok in
      let run : Enough fuel n (1 + length (xs ++ ys)) c c1 (suc (length xs)) = rw e at (
        truncate_direct-Enough fuel n (1 + length (xs ++ ys))
          (step_along m (xs ++ ys) (length (xs ++ ys))) c c1 (some_size c ok) (omega (arith, e))
          (omega (arith, e, l)) (rw first live) (rw first counted)) in
      let (c2, shrunk, cut, same) =
        cut_lem fuel n m xs ys c c1 run first
          (Runs-frame (fat c) (fat c1) m (m ∷ (xs ++ ys)) (λ j h. k1.table j) runs) d
          (λ j h z. used j h (sym (k1.table j) ∙ z)) enough k1.ok in
      let (c3, finished, ok3, t3, s3) = finish_lem n c2 small entry cut.ok in
      (
        c3,
        shrunk ∙ finished,
        Cut-frame m xs ys c c1 c2 c3 k1.table cut t3 ok3,
        (λ k.
            s3 k
            ∙ ap
                (λ (b : List ℕ).
                  if has_entry fi && k == entry_sector g fi
                  then (set_entry_file_size fi n).dir_sector_buf
                  else b)
                (same k ∙ k1.sectors k)),
      )
