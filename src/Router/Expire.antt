-- ===== src/Router/Expire.antt =====
-- crates/ironwood/src/router.rs: `expire_infos`, and two small helpers. `Duration`s are numbers.
use yggdrasil_ng.Prelude.{
  ℕ, ◌-◌, ◌<◌, ◌≡◌, ◌≢◌, ◌⊎◌, ◌↔◌, refl, ◌∙◌, List, [], ◌∷◌, Option, none, some, Bool, true, false,
  ◌&&◌, not, leb, ltb, if◌then◌else◌, ◌=?◌, nat_eq, arith, Bool-cases, inl, inr,
}
use yggdrasil_ng.Prelude.Bytes.{bytes_eq, bytes_beq, bytes_beq_iff}
use yggdrasil_ng.Prelude.Map.{Map, Distinct, get, remove, map_values, get-remove}
use yggdrasil_ng.Wire.Message.{PublicKey}
use yggdrasil_ng.Router.{PeerId, PeerEntry, Router, RouterInfo, reset_cache}
use yggdrasil_ng.Router.Lookup.{entries}
use yggdrasil_ng.Router.Announcing.{is_member}

-- Whether an entry of this age is too old. Our own has the shorter limit.
pub is_old : Router → ℕ → PublicKey → ℕ → Bool
is_old r now k t =
    if k =? r.self_key then leb r.router_refresh (now - t) else leb r.router_timeout (now - t)

pub expired : Router → ℕ → Map PublicKey ℕ → List PublicKey
expired r now [] = []
expired r now ((k, t) ∷ times) =
    let rest = expired r now times in if is_old r now k t then k ∷ rest else rest

unfoldable pub expire_key : Router → PublicKey → Router
expire_key r key =
    if key =? r.self_key
    then record r { refresh = true }
    else reset_cache (record r {
      infos = remove r.infos key;
      info_times = remove r.info_times key;
      sent = map_values (λ sent. remove sent key) r.sent;
    })

unfoldable pub expire_keys : Router → List PublicKey → Router
expire_keys r [] = r
expire_keys r (k ∷ ks) = expire_keys (expire_key r k) ks

unfoldable pub expire_infos : Router → ℕ → Router
expire_infos r now = expire_keys r (expired r now r.info_times)

-- `min_by_key` keeps the first of equal ones.
unfoldable pub least_prio : PeerEntry → List PeerEntry → PeerEntry
least_prio best [] = best
least_prio best (entry ∷ rest) = least_prio (if ltb entry.prio best.prio then entry else best) rest

unfoldable pub best_of : List PeerEntry → Option PeerId
best_of [] = none
best_of (entry ∷ rest) = some (least_prio entry rest).id

unfoldable pub best_peer_for_key : Router → PublicKey → Option PeerId
best_peer_for_key r key = best_of (entries (get r.peers key))

expire_key-infos :
    (r : Router) (key k : PublicKey)
    → get (expire_key r key).infos k
      ≡ (if key =? k && not (k =? r.self_key) then none else get r.infos k)
unfolding expire_key reset_cache
expire_key-infos r key k = elim (Bool-cases (key =? r.self_key)) [
  | inl c ↦
      rw (expire_key, c)
        (ground
          (arith, bytes_beq_iff key k, bytes_beq_iff k r.self_key, bytes_beq_iff key r.self_key))
  | inr c ↦
      rw (expire_key, c)
        (get-remove r.infos key k
          ∙ ground (
            arith,
            bytes_beq_iff key k,
            bytes_beq_iff k r.self_key,
            bytes_beq_iff key r.self_key,
          ))
]

expire_key-self_key : (r : Router) (key : PublicKey) → (expire_key r key).self_key ≡ r.self_key
unfolding expire_key reset_cache
expire_key-self_key r key = elim (Bool-cases (key =? r.self_key)) [
  | inl c ↦ rw (expire_key, c) refl
  | inr c ↦ rw (expire_key, c) refl
]

expire_keys-infos :
    (ks : List PublicKey) (r : Router) (k : PublicKey)
    → get (expire_keys r ks).infos k
      ≡ (if is_member ks k && not (k =? r.self_key) then none else get r.infos k)
unfolding expire_keys is_member
expire_keys-infos [] r k = refl
expire_keys-infos (key ∷ ks) r k = ground (
  arith,
  expire_keys-infos ks (expire_key r key) k,
  expire_key-infos r key k,
  expire_key-self_key r key,
)

pub is_old_at : Router → ℕ → PublicKey → Option ℕ → Bool
is_old_at r now k none = false
is_old_at r now k (some t) = is_old r now k t

expired_fresh :
    (times : Map PublicKey ℕ) (r : Router) (now : ℕ) (k : PublicKey)
    → get times k ≡ none
    → is_member (expired r now times) k ≡ false
unfolding get expired is_member
expired_fresh [] r now k h = refl
expired_fresh ((j, t) ∷ times) r now k h = ground (arith, expired_fresh times r now k)

expired_iff :
    (times : Map PublicKey ℕ) (r : Router) (now : ℕ) (k : PublicKey)
    → Distinct times
    → is_member (expired r now times) k ≡ is_old_at r now k (get times k)
unfolding get expired is_member is_old_at
expired_iff [] r now k d = refl
expired_iff ((j, t) ∷ times) r now k (fresh, d) =
    ground (arith, bytes_beq_iff j k, expired_iff times r now k d, expired_fresh times r now k)

infos_left :
    (r : Router) (now : ℕ) (k : PublicKey)
    → Distinct r.info_times
    → get (expire_infos r now).infos k ≡ (
        if is_old_at r now k (get r.info_times k) && not (k =? r.self_key)
        then none
        else get r.infos k)
unfolding expire_infos
infos_left r now k d =
    rw (← expired_iff r.info_times r now k d) (expire_keys-infos (expired r now r.info_times) r k)

-- The age of the node's entry is below the timeout, or there is no time for it.
abbrev pub IsInTime : Router → ℕ → PublicKey → Type 0
IsInTime r now k = (t : ℕ) → get r.info_times k ≡ some t → now - t < r.router_timeout

is_old_at-InTime :
    (r : Router) (now : ℕ) (k : PublicKey) (time : Option ℕ)
    → k ≢ r.self_key
    → (is_old_at r now k time ≡ false) ↔ ((t : ℕ) → time ≡ some t → now - t < r.router_timeout)
unfolding is_old_at is_old
is_old_at-InTime r now k none other = (λ h t f. cc f, λ h. refl)
is_old_at-InTime r now k (some t) other = (
  λ h s f.
      let same : t ≡ s = cc f in rw (← same) (ground (arith, bytes_beq_iff k r.self_key, other)),
  λ h. let young = h t refl in ground (arith, bytes_beq_iff k r.self_key, other),
)

-- Provided that the times have one entry for each key: after expire_infos there is an announcement
-- of a node exactly if there was the same before, and the node is this one, or the time since its
-- announcement is below the timeout or not known.
pub get-expire_infos :
    (r : Router) (now : ℕ) (k : PublicKey) (info : RouterInfo)
    → Distinct r.info_times
    → (get (expire_infos r now).infos k ≡ some info)
      ↔ ((get r.infos k ≡ some info) × ((k ≡ r.self_key) ⊎ IsInTime r now k))
get-expire_infos r now k info d = elim (Bool-cases (bytes_beq k r.self_key)) [
  | inl own ↦
      let e = (bytes_beq_iff k r.self_key).0 own in rw (infos_left r now k d, own) (ground arith)
  | inr other ↦
      let away : k ≢ r.self_key = λ e. cc ((bytes_beq_iff k r.self_key).1 e, other) in
      let (to, from) = is_old_at-InTime r now k (get r.info_times k) away in
      elim (Bool-cases (is_old_at r now k (get r.info_times k))) [
        | inl old ↦
            let gone : get (expire_infos r now).infos k ≡ none =
              infos_left r now k d ∙ rw (old, other) refl in
            (
              λ h. cc (gone, h),
              λ (h, place). elim place [
                | inl own ↦ absurd (away own)
                | inr kept ↦ let no = from kept in cc (no, old)
              ],
            )
        | inr young ↦ rw (infos_left r now k d, young) ((λ h. (h, inr (to young))), λ (h, _). h)
      ]
]
