-- ===== src/Card/Laws.antt =====
-- What the wrapper relies on in lib/libm65ftp, as laws on its functions.
use mega65fs.Base.{no_cluster, ◌||◌, leb, true, ℕ, ◌≡◌, refl, arith, Bool, List, ◌<◌}
use mega65fs.Card.{Card, Library}

module _ {R : Type 0} where
  -- The two cards have the same geometry.
  pub record SameGeometry (c d : Card R) : Type 0 where
    pub partition_start : d.partition_start ≡ c.partition_start
    pub reserved_sectors : d.reserved_sectors ≡ c.reserved_sectors
    pub sectors_per_fat : d.sectors_per_fat ≡ c.sectors_per_fat
    pub sectors_per_cluster : d.sectors_per_cluster ≡ c.sectors_per_cluster

  pub SameGeometry-refl : (c : Card R) → SameGeometry c c
  SameGeometry-refl c = record {
    partition_start = refl;
    reserved_sectors = refl;
    sectors_per_fat = refl;
    sectors_per_cluster = refl;
  }

  pub SameGeometry-trans : {c d e : Card R} → SameGeometry c d → SameGeometry d e → SameGeometry c e
  SameGeometry-trans p q = ground arith

  -- There is a sector in a cluster still.
  pub some_kept :
      {c d : Card R} → SameGeometry c d → 0 < c.sectors_per_cluster → 0 < d.sectors_per_cluster
  some_kept p h = ground (arith, p.sectors_per_cluster)

-- Calls on sectors and on the chains of clusters leave the geometry alone.
pub record KeepsGeometry {R : Type 0} (lib : Library R) : Type 0 where
  pub write_sector : (n : ℕ) (b : List ℕ) (c : Card R) → SameGeometry c (lib.write_sector n b c).1
  pub read_sector : (n : ℕ) (b : Bool) (c : Card R) → SameGeometry c (lib.read_sector n b c).1
  pub find_contiguous_clusters :
      (n : ℕ) (c : Card R) → SameGeometry c (lib.find_contiguous_clusters n c).1
  pub get_next_cluster : (n : ℕ) (c : Card R) → SameGeometry c (lib.get_next_cluster n c).1
  pub chained_cluster : (n : ℕ) (c : Card R) → SameGeometry c (lib.chained_cluster n c).1
  pub find_free_cluster : (n : ℕ) (c : Card R) → SameGeometry c (lib.find_free_cluster n c).1
  pub allocate_cluster : (n : ℕ) (c : Card R) → SameGeometry c (lib.allocate_cluster n c).1
  pub chain_cluster : (n m : ℕ) (c : Card R) → SameGeometry c (lib.chain_cluster n m c).1

-- The search for contiguous clusters finds none, or one that starts at a data cluster.
pub record FindsData {R : Type 0} (lib : Library R) : Type 0 where
  pub finds :
      (n : ℕ) (c : Card R)
      → (no_cluster (lib.find_contiguous_clusters n c).0
          || leb 2 (lib.find_contiguous_clusters n c).0)
        ≡ true
