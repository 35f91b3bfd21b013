-- ===== src/Flush/Flushed.antt =====
-- flush_write_buffer of src/m65ftp_lib.c as a whole, on a card whose sectors and table can be read
-- off its state: the file is in a block of clusters that were free, and the entry leads there.
use mega65fs.Base.{
  ℕ, ◌+◌, ◌-◌, ◌*◌, ◌/◌, ◌%◌, ◌≤◌, ◌<◌, ◌≡◌, ◌≢◌, ap, true, false, ◌⊎◌, none, List, [], arith,
  if◌then◌else◌, length,
}
use native.Mathlib.Nat.{div-add-mod', mod-lt, div-lt_iff_lt-mul}
use mega65fs.Card.{Card}
use mega65fs.Store.{FileInfo, end_of_chain}
use mega65fs.Chain.{first_data_sector, cluster_size, sector_number}
use mega65fs.Chain.Disk.{number_lem}
use mega65fs.Buffer.Content.{byte_at}
use mega65fs.Entry.{set_entry_first_cluster, set_entry_file_size}
use mega65fs.Entry.Fields.{HasEntry}
use mega65fs.Flush.{has_entry}
use mega65fs.Flush.Block.{IsFree, IsFree-InArea, chained, block}
use mega65fs.Read.Places.{byte_on_card, sector_at}
use mega65fs.Write.Bytes.{Inside, place_back, index_lem}
use mega65fs.Write.Stored.{entry_sector}

module _ {R : Type 0} (g : Card R) where
  -- The clusters that a size takes.
  abbrev pub clusters_of : ℕ → ℕ
  clusters_of size = (size + cluster_size g - 1) / cluster_size g

  -- The entry's copy is one sector, and that sector is one of the data area, in no free cluster.
  pub record EntryInUse (table : ℕ → ℕ) (fi : FileInfo) : Type 0 where
    pub data_area : first_data_sector g ≤ entry_sector g fi
    pub in_use :
        (k s : ℕ)
        → k < end_of_chain
        → table k ≡ 0
        → s < g.sectors_per_cluster
        → entry_sector g fi ≢ sector_number g k s
    pub length_buf : length fi.dir_sector_buf ≡ 512
    pub within : HasEntry fi

-- The descriptor with the entry that a flush writes.
abbrev pub with_entry : FileInfo → ℕ → FileInfo
with_entry fi start = set_entry_file_size (set_entry_first_cluster fi start) fi.file_size

-- The descriptor after a flush.
abbrev pub flushed : FileInfo → ℕ → FileInfo
flushed fi start =
    let fi' = if has_entry fi then with_entry fi start else fi in
    record fi' {
      first_cluster = start;
      write_cluster = start;
      sector_in_cluster = 0;
      last_offset = 0;
      current_cluster = start;
      current_cluster_idx = 0;
      write_buf = none;
      write_buf_cap = 0;
      buffered = false;
    }

module _ {R : Type 0} (P : Card R → Type 0) (fat : Card R → ℕ → ℕ) (sector : Card R → ℕ → List ℕ)
    (g : Card R) where
  -- The file stands in the clusters from `start` on, which were free and are one chain; the entry
  -- in its sector leads there; no other sector and no other entry of the table has changed.
  pub record Flushed (fi : FileInfo) (start : ℕ) (c c' : Card R) : Type 0 where
    pub ok : P c'
    pub was_free : IsFree g (fat c) start (clusters_of g fi.file_size)
    pub table : (k : ℕ) → fat c' k ≡ chained (fat c) start (clusters_of g fi.file_size - 1) k
    pub bytes :
        (x : ℕ) → x < fi.file_size → byte_on_card g (sector c') (block start) x ≡ byte_at fi x
    pub entry :
        has_entry fi ≡ true → sector c' (entry_sector g fi) ≡ (with_entry fi start).dir_sector_buf
    pub others :
        (m : ℕ)
        → (sector c' m ≡ sector c m)
          ⊎ (Inside g (block start) (clusters_of g fi.file_size) m
              ⊎ ((m ≡ entry_sector g fi) × (has_entry fi ≡ true)))

-- The sectors of a size lie in its clusters.
pub sectors_in_clusters :
    (size spc : ℕ) → 0 < spc → (size + 511) / 512 ≤ (size + spc * 512 - 1) / (spc * 512) * spc
sectors_in_clusters size spc h =
    let k = (size + spc * 512 - 1) / (spc * 512) in
    omega (
      arith,
      div-add-mod' (size + spc * 512 - 1) (spc * 512),
      mod-lt (size + spc * 512 - 1) {m = spc * 512} (omega arith),
    )

-- So do its bytes.
pub bytes_in_clusters :
    (size spc : ℕ) → 0 < spc → size ≤ (size + spc * 512 - 1) / (spc * 512) * (spc * 512)
bytes_in_clusters size spc h = omega (
  arith,
  div-add-mod' (size + spc * 512 - 1) (spc * 512),
  mod-lt (size + spc * 512 - 1) {m = spc * 512} (omega arith),
)

-- Sector m of the block, counted from its first.
pub in_block :
    {R : Type 0} (g : Card R) (table : ℕ → ℕ) (start n m : ℕ)
    → 0 < g.sectors_per_cluster
    → IsFree g table start n
    → (let first = first_data_sector g + (start - 2) * g.sectors_per_cluster in
        first ≤ m → m < first + n * g.sectors_per_cluster → Inside g (block start) n m)
in_block g table start n m spc free lo hi =
    let first = first_data_sector g + (start - 2) * g.sectors_per_cluster in
    let i = (m - first) / g.sectors_per_cluster in
    let s = (m - first) % g.sectors_per_cluster in
    let hi' : i < n =
      grind (arith, div-lt_iff_lt-mul {k = g.sectors_per_cluster} {x = m - first} {y = n} spc) in
    let hs : s < g.sectors_per_cluster = mod-lt (m - first) spc in
    (
      i,
      s,
      hi',
      hs,
      omega (
        arith,
        number_lem g (block start) n (IsFree-InArea g table start n free) i s hi' hs,
        div-add-mod' (m - first) g.sectors_per_cluster,
        free.low,
        lo,
        ap (λ (t : ℕ). t * g.sectors_per_cluster)
            (let q : start + i - 2 ≡ start - 2 + i = omega (arith, free.low) in q),
      ),
    )

pub sector_of_byte :
    {R : Type 0} (g : Card R) (table : ℕ → ℕ) (start n x : ℕ)
    → 0 < g.sectors_per_cluster
    → IsFree g table start n
    → x < n * cluster_size g
    → sector_at g (λ m. []) (block start) x
      ≡ first_data_sector g + (start - 2) * g.sectors_per_cluster + x / 512
sector_of_byte g table start n x spc free h =
    let i = x / cluster_size g in
    let s = x % cluster_size g / 512 in
    let (hs, e, _) = place_back x g.sectors_per_cluster spc in
    omega (
      arith,
      number_lem g (block start) n (IsFree-InArea g table start n free) i s (index_lem g n spc x h)
          hs,
      e,
      ap (λ (t : ℕ). t * g.sectors_per_cluster)
          (let q : start + i - 2 ≡ start - 2 + i = omega (arith, free.low) in q),
    )
