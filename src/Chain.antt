-- ===== src/Chain.antt =====
-- Cluster chains as src/m65ftp_lib.c walks them, and where a cluster's sectors lie:
-- count_cluster_chain, the loops that follow `chained_cluster`, and the loop that frees a chain.
pub mod Walks
pub mod Disk
pub mod Count
pub mod Freed
pub mod Split
use mega65fs.Base.{
  ℕ, zero, suc, ◌+◌, ◌*◌, u32, sub32, no_cluster, if◌then◌else◌, Prog, pure, out_of_fuel, ◌>>=◌,
  ◌>>◌, call, run, drop_result, get, add_int32,
}
use mega65fs.Card.{Card, Library}
use mega65fs.Store.{FileInfo}

module _ {R : Type 0} where
  abbrev pub cluster_size : Card R → ℕ
  cluster_size c = c.sectors_per_cluster * 512

  -- `partition_start + reserved_sectors + 2 * sectors_per_fat`
  abbrev pub first_data_sector : Card R → ℕ
  first_data_sector c = u32 (c.partition_start + c.reserved_sectors + 2 * c.sectors_per_fat)

  -- `first_data_sector + (cluster - 2) * sectors_per_cluster + sec`
  abbrev pub sector_number : Card R → ℕ → ℕ → ℕ
  sector_number c cluster sec =
      u32 (first_data_sector c + sub32 cluster 2 * c.sectors_per_cluster + sec)

module _ {R : Type 0} ⦃lib : Library R⦄ where
  -- `count` clusters are seen and `cluster` is the last of them.
  unfoldable pub count_from : ℕ → ℕ → ℕ → Prog (Card R) (ℕ × ℕ)
  count_from zero cluster count = out_of_fuel
  count_from (suc fuel) cluster count = do
    next ← call (lib.chained_cluster cluster)
    if no_cluster next then pure (count, cluster) else count_from fuel next (count + 1)

  -- The length of the chain, and its last cluster.
  unfoldable pub count_cluster_chain : ℕ → ℕ → Prog (Card R) (ℕ × ℕ)
  unfolding count_from
  count_cluster_chain fuel first_cluster = count_from fuel first_cluster 1

  -- At most n steps along the chain: the cluster reached, and the steps made.
  unfoldable pub walk_chain : ℕ → ℕ → ℕ → Prog (Card R) (ℕ × ℕ)
  walk_chain zero cluster chain_len = pure (cluster, chain_len)
  walk_chain (suc n) cluster chain_len = do
    next ← call (lib.chained_cluster cluster)
    if no_cluster next then pure (cluster, chain_len) else walk_chain n next (chain_len + 1)

  -- `while (cluster > 0 && cluster < MARKER) { next = ...; deallocate_cluster(cluster); ... }`
  unfoldable pub free_chain : ℕ → ℕ → Prog (Card R) (Unit {0})
  free_chain zero cluster = if no_cluster cluster then pure tt else out_of_fuel
  free_chain (suc fuel) cluster = if no_cluster cluster then pure tt else do
    next ← call (lib.chained_cluster cluster)
    run (lib.deallocate_cluster cluster)
    free_chain fuel next

  -- `write_sector(partition_start + fi->dir_sector, fi->dir_sector_buf)`, its result not tested.
  abbrev pub write_entry : FileInfo → Prog (Card R) (Unit {0})
  write_entry fi = do
    c ← get
    drop_result (lib.write_sector (add_int32 c.partition_start fi.dir_sector) fi.dir_sector_buf)
