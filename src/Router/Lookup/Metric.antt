-- ===== src/Router/Lookup/Metric.antt =====
-- The distance between coordinates is a metric.
use yggdrasil_ng.Prelude.{
  suc, ◌+◌, ◌-◌, ◌≤◌, ◌≡◌, ◌↔◌, refl, ◌∙◌, List, [], ◌∷◌, arith, length, ◌==◌, if◌then◌else◌,
}
use yggdrasil_ng.Wire.Path.{PeerPort}
use yggdrasil_ng.Router.Lookup.{dist_loop, tree_dist}

pub tree_dist-nil : (ds : List PeerPort) → tree_dist [] ds ≡ length ds
unfolding tree_dist dist_loop
tree_dist-nil ds = omega arith

tree_dist-nil_right : (ks : List PeerPort) → tree_dist ks [] ≡ length ks
unfolding tree_dist dist_loop
tree_dist-nil_right [] = omega arith
tree_dist-nil_right (k ∷ ks) = omega arith

tree_dist-cons :
    (k d : PeerPort) (ks ds : List PeerPort)
    → tree_dist (k ∷ ks) (d ∷ ds) ≡ (if k == d then tree_dist ks ds else length ks + length ds + 2)
unfolding tree_dist dist_loop
tree_dist-cons k d ks ds =
    let e : suc (length ks) + suc (length ds) - 2 ≡ length ks + length ds = omega arith in
    rw e (ground arith)

-- The distance between coordinates is the same in both directions.
pub tree_dist_symm : (ks ds : List PeerPort) → tree_dist ks ds ≡ tree_dist ds ks
tree_dist_symm [] ds = tree_dist-nil ds ∙ ground (arith, tree_dist-nil_right ds)
tree_dist_symm (k ∷ ks) [] = ground (arith, tree_dist-nil_right (k ∷ ks), tree_dist-nil (k ∷ ks))
tree_dist_symm (k ∷ ks) (d ∷ ds) =
    ground (arith, tree_dist-cons k d ks ds, tree_dist-cons d k ds ks, tree_dist_symm ks ds)

tree_dist-zero : (ks ds : List PeerPort) → tree_dist ks ds ≡ 0 → ks ≡ ds
tree_dist-zero [] [] h = refl
tree_dist-zero [] (d ∷ ds) h = absurd (omega (arith, tree_dist-nil (d ∷ ds)))
tree_dist-zero (k ∷ ks) [] h = absurd (omega (arith, tree_dist-nil_right (k ∷ ks)))
tree_dist-zero (k ∷ ks) (d ∷ ds) h = ground (arith, tree_dist-cons k d ks ds, tree_dist-zero ks ds)

tree_dist_self : (ks : List PeerPort) → tree_dist ks ks ≡ 0
tree_dist_self [] = tree_dist-nil []
tree_dist_self (k ∷ ks) = ground (arith, tree_dist-cons k k ks ks, tree_dist_self ks)

-- The distance is 0 exactly between equal coordinates.
pub tree_dist-zero_iff : (ks ds : List PeerPort) → (tree_dist ks ds ≡ 0) ↔ (ks ≡ ds)
tree_dist-zero_iff ks ds = (tree_dist-zero ks ds, λ e. rw e (tree_dist_self ds))

tree_dist-le : (ks ds : List PeerPort) → tree_dist ks ds ≤ length ks + length ds
tree_dist-le [] ds = omega (arith, tree_dist-nil ds)
tree_dist-le (k ∷ ks) [] = omega (arith, tree_dist-nil_right (k ∷ ks))
tree_dist-le (k ∷ ks) (d ∷ ds) = ground (arith, tree_dist-cons k d ks ds, tree_dist-le ks ds)

length-le-tree_dist : (ks ds : List PeerPort) → length ds ≤ length ks + tree_dist ks ds
length-le-tree_dist [] ds = omega (arith, tree_dist-nil ds)
length-le-tree_dist (k ∷ ks) [] = omega arith
length-le-tree_dist (k ∷ ks) (d ∷ ds) =
    ground (arith, tree_dist-cons k d ks ds, length-le-tree_dist ks ds)

-- The distance obeys the triangle inequality.
pub tree_dist-triangle :
    (ks ms ds : List PeerPort) → tree_dist ks ds ≤ tree_dist ks ms + tree_dist ms ds
tree_dist-triangle [] ms ds =
    omega (arith, tree_dist-nil ds, tree_dist-nil ms, length-le-tree_dist ms ds)
tree_dist-triangle (k ∷ ks) [] ds =
    omega (arith, tree_dist-nil_right (k ∷ ks), tree_dist-nil ds, tree_dist-le (k ∷ ks) ds)
tree_dist-triangle (k ∷ ks) (m ∷ ms) [] = omega (
  arith,
  tree_dist-nil_right (k ∷ ks),
  tree_dist-nil_right (m ∷ ms),
  tree_dist_symm (k ∷ ks) (m ∷ ms),
  length-le-tree_dist (m ∷ ms) (k ∷ ks),
)
tree_dist-triangle (k ∷ ks) (m ∷ ms) (d ∷ ds) = ground (
  arith,
  tree_dist-cons k d ks ds,
  tree_dist-cons k m ks ms,
  tree_dist-cons m d ms ds,
  tree_dist-triangle ks ms ds,
  tree_dist_symm ks ms,
  tree_dist-le ks ds,
  length-le-tree_dist ms ks,
  length-le-tree_dist ms ds,
)
