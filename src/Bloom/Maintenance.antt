-- ===== src/Bloom/Maintenance.antt =====
-- crates/ironwood/src/bloom.rs: `fix_on_tree`, and `do_maintenance` around it.
use yggdrasil_ng.Prelude.{
  ℕ, ◌+◌, ◌≡◌, refl, ap, ◌∙◌, List, [], ◌∷◌, ◌++◌, some, Bool, true, false, not, ◌&&◌, ◌||◌, ◌=?◌,
  ltb, if◌then◌else◌, inl, inr, arith, Bool-cases, beq_refl, All,
}
use mathlib.Core.Option
use yggdrasil_ng.Prelude.Bytes.{Bytes, bytes_eq}
use yggdrasil_ng.Prelude.Map.{Map, get, insert, modify, get-insert, get-modify}
use yggdrasil_ng.Wire.Message.{PublicKey}
use yggdrasil_ng.Bloom.{BloomFilter, new_filter}
use yggdrasil_ng.Bloom.Filter.{new_filter-IsFilter}
use yggdrasil_ng.Bloom.Peers.{
  BloomInfo, Blooms, Transform, is_on_tree, get_send_bloom, is_near, fix_info, fix_on_tree,
  on_tree_keys, send_round, send_rounds, do_maintenance,
}
use yggdrasil_ng.Bloom.Cover.{IsInfo, IsValid}
use yggdrasil_ng.Bloom.Send.{get_bloom_for-inv, get_bloom_for_stored}

module _ (self_key self_parent : PublicKey) (parents : Map PublicKey PublicKey) where
  abbrev fixed : Blooms → Blooms
  fixed blooms = (fix_on_tree self_key self_parent parents blooms).0

  abbrev near : PublicKey → Bool
  near k = is_near self_key self_parent parents k

  get-fix_on_tree :
      (blooms : Blooms) (k : PublicKey)
      → get (fixed blooms) k ≡ Option.map (fix_info (near k)) (get blooms k)
  unfolding get fix_on_tree
  get-fix_on_tree [] k = refl
  get-fix_on_tree ((j, i) ∷ blooms) k = elim (Bool-cases (j =? k)) [
    | inl c ↦ let at : j ≡ k = (bytes_eq.beq_iff j k).0 c in rw (c, at) refl
    | inr c ↦ rw c (get-fix_on_tree blooms k)
  ]

  -- A peer is on the tree afterwards exactly if it is parent or child; one that left gets a blank filter.
  pub is_on_tree-fix_on_tree :
      (blooms : Blooms) (k : PublicKey) (info : BloomInfo)
      → get blooms k ≡ some info
      → (is_on_tree (fix_on_tree self_key self_parent parents blooms).0 k
          ≡ is_near self_key self_parent parents k)
        × (get_send_bloom (fix_on_tree self_key self_parent parents blooms).0 k
            ≡ some (
                if info.on_tree && not (is_near self_key self_parent parents k)
                then new_filter
                else info.send))
  unfolding is_on_tree get_send_bloom fix_info
  is_on_tree-fix_on_tree blooms k info h = (
    rw (is_on_tree, get-fix_on_tree blooms k, h) (ground arith),
    rw (get_send_bloom, get-fix_on_tree blooms k, h) (ground arith),
  )

  fix_on_tree-IsValid : (blooms : Blooms) → IsValid blooms → IsValid (fixed blooms)
  unfolding fix_on_tree fix_info
  fix_on_tree-IsValid [] v = tt
  fix_on_tree-IsValid ((j, i) ∷ blooms) ((hs, hr), v) =
      elim (Bool-cases (i.on_tree && not (near j))) [
        | inl c ↦ rw c ((new_filter-IsFilter, hr), fix_on_tree-IsValid blooms v)
        | inr c ↦ rw c ((hs, hr), fix_on_tree-IsValid blooms v)
      ]

-- The keys of a map stay where an entry is written.
abbrev pub Knows : Blooms → List PublicKey → Type 0
Knows blooms ks = All (λ k. (info : BloomInfo) × (get blooms k ≡ some info)) ks

pub insert-Knows :
    (blooms : Blooms) (key : PublicKey) (i : BloomInfo) (ks : List PublicKey)
    → Knows blooms ks
    → Knows (insert blooms key i) ks
insert-Knows blooms key i [] h = tt
insert-Knows blooms key i (k ∷ ks) ((info, g), h) = (
  elim (Bool-cases (key =? k)) [
    | inl c ↦ (i, get-insert blooms key k i ∙ rw c refl)
    | inr c ↦ (info, get-insert blooms key k i ∙ rw c g)
  ],
  insert-Knows blooms key i ks h,
)

pub modify-Knows :
    (blooms : Blooms) (key : PublicKey) (f : BloomInfo → BloomInfo) (ks : List PublicKey)
    → Knows blooms ks
    → Knows (modify blooms key f) ks
modify-Knows blooms key f [] h = tt
modify-Knows blooms key f (k ∷ ks) ((info, g), h) = (
  elim (Bool-cases (key =? k)) [
    | inl c ↦ (f info, get-modify blooms key k f ∙ rw (c, g) refl)
    | inr c ↦ (info, get-modify blooms key k f ∙ rw (c, g) refl)
  ],
  modify-Knows blooms key f ks h,
)

modify-IsValid :
    (blooms : Blooms) (key : PublicKey) (f : BloomInfo → BloomInfo)
    → ((info : BloomInfo) → IsInfo info → IsInfo (f info))
    → IsValid blooms
    → IsValid (modify blooms key f)
unfolding modify
modify-IsValid [] key f p v = tt
modify-IsValid ((k, i) ∷ blooms) key f p (vi, v) = elim (Bool-cases (k =? key)) [
  | inl e ↦ rw e (p i vi, v)
  | inr e ↦ rw e (vi, modify-IsValid blooms key f p v)
]

cons-Knows :
    (k : PublicKey) (i : BloomInfo) (blooms : Blooms) (ks : List PublicKey)
    → Knows blooms ks
    → Knows ((k, i) ∷ blooms) ks
unfolding get
cons-Knows k i blooms [] h = tt
cons-Knows k i blooms (j ∷ js) ((info, g), h) = (
  elim (Bool-cases (k =? j)) [ inl c ↦ (i, rw c refl) | inr c ↦ (info, rw c g) ],
  cons-Knows k i blooms js h,
)

if-Knows :
    (c : Bool) (blooms : Blooms) (k : PublicKey) (info : BloomInfo) (ks : List PublicKey)
    → get blooms k ≡ some info
    → Knows blooms ks
    → Knows blooms (if c then k ∷ ks else ks)
if-Knows true blooms k info ks g h = ((info, g), h)
if-Knows false blooms k info ks g h = h

pub on_tree_keys-Knows : (blooms : Blooms) → Knows blooms (on_tree_keys blooms)
unfolding on_tree_keys get
on_tree_keys-Knows [] = tt
on_tree_keys-Knows ((k, i) ∷ blooms) =
    if-Knows i.on_tree ((k, i) ∷ blooms) k i (on_tree_keys blooms) (rw (beq_refl k) refl)
      (cons-Knows k i blooms (on_tree_keys blooms) (on_tree_keys-Knows blooms))

module _ (murmur : Bytes → ℕ) (transform : Transform) (self_key : PublicKey) where
  -- The two branches of a round write one entry.
  send_round_total :
      (blooms : Blooms) (k : PublicKey) (info : BloomInfo) (ks : List PublicKey)
      → IsValid blooms
      → Knows blooms ks
      → get blooms k ≡ some info
      → (r : Blooms × List (PublicKey × BloomFilter)) × (send_round murmur blooms k self_key
            transform
          ≡ some r)
        × IsValid r.0
        × Knows r.0 ks
  unfolding send_round
  send_round_total blooms k info ks v h g =
      let ((bs, b, is_new), e, sent, v') =
        get_bloom_for_stored murmur blooms k self_key (not info.z_dirty) transform info v g in
      let (info', g', same) =
        get_bloom_for-inv murmur blooms k self_key (not info.z_dirty) transform (bs, b, is_new) e in
      let h' : Knows bs ks =
        rw (← ap (λ (r : Blooms × BloomFilter × Bool). r.0) same) (insert-Knows blooms k _ ks h) in
      elim (Bool-cases (is_new || not (ltb (info.seq + 1) 3600))) [
        | inl c ↦ (
          (modify bs k (λ i. record i { seq = 0 }), (k, b) ∷ []),
          rw (send_round, g, e, c) refl,
          modify-IsValid bs k _ (λ i w. w) v',
          modify-Knows bs k _ ks h',
        )
        | inr c ↦ (
          (modify bs k (λ i. record i { seq = info.seq + 1 }), []),
          rw (send_round, g, e, c) refl,
          modify-IsValid bs k _ (λ i w. w) v',
          modify-Knows bs k _ ks h',
        )
      ]

  send_rounds_total :
      (blooms : Blooms) (ks : List PublicKey)
      → IsValid blooms
      → Knows blooms ks
      → (r : Blooms × List (PublicKey × BloomFilter)) × (send_rounds murmur blooms ks self_key
            transform
          ≡ some r)
        × IsValid r.0
  unfolding send_rounds
  send_rounds_total blooms [] v h = ((blooms, []), refl, v)
  send_rounds_total blooms (k ∷ ks) v ((info, g), h) =
      let ((bs, sent), e, v', h') = send_round_total blooms k info ks v h g in
      let ((bs', more), e', v'') = send_rounds_total bs ks v' h' in
      ((bs', sent ++ more), rw (send_rounds, e, e') refl, v'')

  -- With filters of 128 words, the maintenance of the filters never meets a missing entry, and
  -- leaves filters of 128 words.
  pub do_maintenance_total :
      (blooms : Blooms) (self_parent : PublicKey) (parents : Map PublicKey PublicKey)
      → IsValid blooms
      → (r : Blooms × List (PublicKey × BloomFilter)) × (do_maintenance murmur blooms self_key
            self_parent parents transform
          ≡ some r)
        × IsValid r.0
  unfolding do_maintenance
  do_maintenance_total blooms self_parent parents v =
      let bs = fixed self_key self_parent parents blooms in
      let ((bs', sent), e, v') =
        send_rounds_total bs (on_tree_keys bs)
          (fix_on_tree-IsValid self_key self_parent parents blooms v) (on_tree_keys-Knows bs) in
      (
        (bs', (fix_on_tree self_key self_parent parents blooms).1 ++ sent),
        rw (do_maintenance, e) refl,
        v',
      )
