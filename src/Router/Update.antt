-- ===== src/Router/Update.antt =====
-- `update`: the store of announcements is a join of everything that was announced, so the order of
-- arrival does not matter.
use yggdrasil_ng.Prelude.{
  ℕ, ◌<◌, ◌≡◌, ◌⊎◌, refl, ◌∙◌, List, [], ◌∷◌, Option, none, some, true, false, arith, if◌then◌else◌,
  ◌=?◌, nat_eq, beq_refl, Bool-cases, inl, inr, All,
}
use yggdrasil_ng.Prelude.Bytes.{bytes_eq, bytes_beq, bytes_beq_iff, bytes_ltb, bytes_ltb_irrefl}
use yggdrasil_ng.Prelude.Map.{get, get-insert}
use yggdrasil_ng.Wire.Message.{PublicKey}
use yggdrasil_ng.Router.{RouterInfo, RouterAnnounce, Router, info_of, newer, accepts, save, update}
use yggdrasil_ng.Router.Order.{
  newer_irrefl, newer_trans, newer_connected, newer_cotrans, bytes_ltb-asym,
}

-- What the store holds for a node after an announcement of that node.
unfoldable pub merge : Option RouterInfo → RouterInfo → RouterInfo
merge none new = new
merge (some old) new = if newer old new then new else old

-- An announcement that is not newer than the entry changes nothing.
pub update_rejected :
    (r : Router) (ann : RouterAnnounce) (now : ℕ)
    → accepts (get r.infos ann.key) (info_of ann) ≡ false
    → update r ann now ≡ (r, false)
unfolding update
update_rejected r ann now h = rw h

pub update_accepted :
    (r : Router) (ann : RouterAnnounce) (now : ℕ)
    → accepts (get r.infos ann.key) (info_of ann) ≡ true
    → update r ann now ≡ (save r ann now, true)
unfolding update
update_accepted r ann now h = rw h

merge-accepts :
    (o : Option RouterInfo) (new : RouterInfo)
    → some (merge o new) ≡ (if accepts o new then some new else o)
unfolding merge accepts
merge-accepts none new = refl
merge-accepts (some old) new = ground arith

pub get-update :
    (r : Router) (ann : RouterAnnounce) (now : ℕ) (k : PublicKey)
    → get (update r ann now).0.infos k
      ≡ (if ann.key =? k then some (merge (get r.infos ann.key) (info_of ann)) else get r.infos k)
get-update r ann now k = elim (Bool-cases (accepts (get r.infos ann.key) (info_of ann))) [
  | inl h ↦
      rw (update_accepted r ann now h, merge-accepts (get r.infos ann.key) (info_of ann), h)
        (unfold save in get-insert r.infos ann.key k (info_of ann))
  | inr h ↦
      rw (update_rejected r ann now h, merge-accepts (get r.infos ann.key) (info_of ann), h)
        (ground (arith, bytes_beq_iff ann.key k))
]

-- A node signs one announcement at most for a sequence number, parent and nonce.
abbrev pub Agree : RouterAnnounce → RouterAnnounce → Type 0
Agree a b =
    a.key ≡ b.key → a.seq ≡ b.seq → a.parent ≡ b.parent → a.nonce ≡ b.nonce → info_of a ≡ info_of b

newer_asym : (a b : RouterInfo) → newer a b ≡ true → newer b a ≡ false
newer_asym a b h = elim (Bool-cases (newer b a)) [
  | inl k ↦ cc (newer_trans a b a h k, newer_irrefl a)
  | inr k ↦ k
]

merge_comm :
    (o : Option RouterInfo) (a b : RouterInfo)
    → (newer a b ≡ false → newer b a ≡ false → a ≡ b)
    → merge (some (merge o a)) b ≡ merge (some (merge o b)) a
unfolding merge
merge_comm none a b tie = elim (Bool-cases (newer a b)) [
  | inl h ↦ ground (arith, newer_asym a b h)
  | inr h ↦ elim (Bool-cases (newer b a)) [ inl k ↦ ground arith | inr k ↦ ground (arith, tie h k) ]
]
merge_comm (some s) a b tie = elim (Bool-cases (newer a b)) [
  | inl h ↦ ground (arith, newer_asym a b h, newer_trans s a b, newer_cotrans s b a)
  | inr h ↦ elim (Bool-cases (newer b a)) [
    | inl k ↦ ground (arith, newer_trans s b a, newer_cotrans s a b)
    | inr k ↦ ground (arith, tie h k)
  ]
]

tie_of_Agree :
    (a b : RouterAnnounce)
    → Agree a b
    → a.key ≡ b.key
    → newer (info_of a) (info_of b) ≡ false
    → newer (info_of b) (info_of a) ≡ false
    → info_of a ≡ info_of b
tie_of_Agree a b agree e h k =
    let (s, p, n) = newer_connected (info_of a) (info_of b) h k in unfold info_of in agree e s p n

-- Two tree announcements leave the same entry for every node in whichever order they are processed,
-- provided that equal sequence number, parent and nonce of one node mean equal announcements.
pub update-update_comm :
    (r : Router) (a b : RouterAnnounce) (now later : ℕ) (k : PublicKey)
    → Agree a b
    → get (update (update r a now).0 b later).0.infos k
      ≡ get (update (update r b now).0 a later).0.infos k
update-update_comm r a b now later k agree = elim (Bool-cases (bytes_beq a.key b.key)) [
  | inl same ↦
      let e : a.key ≡ b.key = (bytes_beq_iff a.key b.key).0 same in
      simp get-update (
        ground (
          arith,
          e,
          bytes_beq_iff b.key a.key,
          bytes_beq_iff a.key b.key,
          merge_comm (get r.infos a.key) (info_of a) (info_of b) (tie_of_Agree a b agree e),
        ))
  | inr other ↦ simp get-update (
      ground (
        arith,
        bytes_beq_iff a.key b.key,
        bytes_beq_iff b.key a.key,
        bytes_beq_iff a.key k,
        bytes_beq_iff b.key k,
      ))
]

merge-not_newer : (o : Option RouterInfo) (new : RouterInfo) → newer (merge o new) new ≡ false
unfolding merge
merge-not_newer none new = newer_irrefl new
merge-not_newer (some old) new = ground (arith, newer_irrefl new)

merge-ge : (old new : RouterInfo) → newer (merge (some old) new) old ≡ false
unfolding merge
merge-ge old new = elim (Bool-cases (newer old new)) [
  | inl h ↦ rw h (newer_asym old new h)
  | inr h ↦ rw h (newer_irrefl old)
]

-- A run of the router's announcements with the times of their arrival.
pub updates : Router → List (RouterAnnounce × ℕ) → Router
updates r [] = r
updates r ((ann, now) ∷ rest) = updates (update r ann now).0 rest

-- An entry is replaced by newer ones only.
-- An announcement supersedes another of the same node with a higher sequence number, with the same
-- number and a lower parent, or with both the same and a lower nonce.
abbrev pub Supersedes : RouterInfo → RouterInfo → Type 0
Supersedes new old =
    (old.seq < new.seq)
    ⊎ ((new.seq ≡ old.seq)
        × ((bytes_ltb new.parent old.parent ≡ true)
            ⊎ ((new.parent ≡ old.parent) × (new.nonce < old.nonce))))

not_superseded : (held info : RouterInfo) → newer held info ≡ false → ¬ Supersedes info held
unfolding newer
not_superseded held info h =
    ground (arith, bytes_ltb_irrefl held.parent, bytes_ltb-asym held.parent info.parent)

abbrev pub AtLeast : Router → PublicKey → RouterInfo → Type 0
AtLeast r k info = (held : RouterInfo) × (get r.infos k ≡ some held) × (newer held info ≡ false)

-- The entry for the node, which the announcement does not supersede.
abbrev pub IsNewest : Router → PublicKey → RouterInfo → Type 0
IsNewest r k info = (held : RouterInfo) × (get r.infos k ≡ some held) × (¬ Supersedes info held)

IsNewest-of_AtLeast :
    (r : Router) (k : PublicKey) (info : RouterInfo) → AtLeast r k info → IsNewest r k info
IsNewest-of_AtLeast r k info (held, e, h) = (held, e, not_superseded held info h)

update-AtLeast :
    (r : Router) (ann : RouterAnnounce) (now : ℕ) (k : PublicKey) (info : RouterInfo)
    → AtLeast r k info
    → AtLeast (update r ann now).0 k info
update-AtLeast r ann now k info (held, e, h) = elim (Bool-cases (bytes_beq ann.key k)) [
  | inl same ↦ (
    merge (some held) (info_of ann),
    get-update r ann now k ∙ ground (arith, bytes_beq_iff ann.key k),
    newer_cotrans (merge (some held) (info_of ann)) held info (merge-ge held (info_of ann)) h,
  )
  | inr other ↦ (held, get-update r ann now k ∙ rw other e, h)
]

updates-AtLeast :
    (anns : List (RouterAnnounce × ℕ)) (r : Router) (k : PublicKey) (info : RouterInfo)
    → AtLeast r k info
    → AtLeast (updates r anns) k info
unfolding updates
updates-AtLeast [] r k info h = h
updates-AtLeast ((ann, now) ∷ rest) r k info h =
    updates-AtLeast rest (update r ann now).0 k info (update-AtLeast r ann now k info h)

update-AtLeast_self :
    (r : Router) (ann : RouterAnnounce) (now : ℕ)
    → AtLeast (update r ann now).0 ann.key (info_of ann)
update-AtLeast_self r ann now = (
  merge (get r.infos ann.key) (info_of ann),
  get-update r ann now ann.key ∙ rw (beq_refl ann.key),
  merge-not_newer (get r.infos ann.key) (info_of ann),
)

-- After any announcements each announced node has an entry, and none of its announcements has a
-- higher sequence number than it, or the same number and a lower parent, or both the same and a
-- lower nonce.
pub updates-IsNewest :
    (anns : List (RouterAnnounce × ℕ)) (r : Router)
    → All (λ (p : RouterAnnounce × ℕ). IsNewest (updates r anns) p.0.key (info_of p.0)) anns
unfolding updates
updates-IsNewest [] r = tt
updates-IsNewest ((ann, now) ∷ rest) r = (
  IsNewest-of_AtLeast (updates (update r ann now).0 rest) ann.key (info_of ann) (
      updates-AtLeast rest (update r ann now).0 ann.key (info_of ann)
        (update-AtLeast_self r ann now)),
  updates-IsNewest rest (update r ann now).0,
)
