-- ===== src/Pathfinder/Learning.antt =====
-- When a node takes a path over, and what it has then.
use yggdrasil_ng.Prelude.{
  ℕ, ◌<◌, ◌≡◌, ◌≢◌, ◌⊎◌, ◌↔◌, refl, inl, inr, List, Option, none, some, Bool, true, false, not,
  ◌&&◌, leb, ◌=?◌, arith, beq_refl, Bool-cases, Option-cases,
}
use yggdrasil_ng.Prelude.Bytes.{bytes_eq, bytes_beq_iff}
use yggdrasil_ng.Prelude.Map.{Map, get, insert, modify, contains_key, get-insert}
use yggdrasil_ng.Wire.Path.{PeerPort}
use yggdrasil_ng.Wire.Message.{PublicKey}
use yggdrasil_ng.Pathfinder.{PathInfo, PathRumor, Pathfinder, found_path}
use yggdrasil_ng.Pathfinder.Paths.{
  learn_path_from_traffic, get_path, live_path, needs_traffic_cache,
}
use yggdrasil_ng.Pathfinder.Notify.{accept_notify, accept_known, accept_new, renewed, take_traffic}

absurd-false {ℓ} : {A : Type ℓ} → false ≡ true → A
absurd-false h = cc h

not-broken {ℓ} : {A : Type ℓ} → (false ≡ true) ⊎ A → A
not-broken (inl h) = cc h
not-broken (inr a) = a

-- What makes a node accept a notification.
pub Acceptable : Option PathInfo → Bool → ℕ → List PeerPort → Type 0
Acceptable (some info) asked seq path =
    (info.seq < seq) × ((info.broken ≡ true) ⊎ (info.path ≢ path))
Acceptable none asked seq path = asked ≡ true

module _ (p : Pathfinder) (source xformed : PublicKey) (seq : ℕ) (path : List PeerPort)
    (now : ℕ) where
  known_iff :
      (info : PathInfo)
      → ((accept_known p source info seq path now).1 ≡ true)
        ↔ Acceptable (some info) (contains_key p.rumors xformed) seq path
  unfolding accept_known Acceptable
  known_iff info = ground (arith, bytes_beq_iff info.path path)

  new_iff :
      ((accept_new p source xformed seq path now).1 ≡ true)
      ↔ Acceptable none (contains_key p.rumors xformed) seq path
  unfolding accept_new Acceptable
  new_iff = ground arith

  -- A notification is accepted exactly if its number is greater than that of the entry and it
  -- changes the coordinates or the path is broken, or if there is no entry and a lookup waits.
  pub accept_notify_iff :
      ((accept_notify p source xformed seq path now).1 ≡ true)
      ↔ Acceptable (get p.paths source) (contains_key p.rumors xformed) seq path
  unfolding accept_notify Acceptable
  accept_notify_iff = elim (Option-cases (get p.paths source)) [
    | inl absent ↦ rw (accept_notify, absent) new_iff
    | inr (info, old) ↦ rw (accept_notify, old) (known_iff info)
  ]

  -- A notification that is not accepted changes nothing and releases no packet.
  pub accept_notify-rejected :
      (accept_notify p source xformed seq path now).1 ≡ false
      → accept_notify p source xformed seq path now ≡ (p, false, none)
  unfolding accept_notify accept_known accept_new
  accept_notify-rejected h = ground arith

  -- The source is reachable by the new coordinates, with no packet left, and the rest is as before.
  abbrev pub HasNew : Pathfinder → Type 0
  HasNew p' =
      (get_path p' source ≡ some path)
      × (needs_traffic_cache p' source ≡ true)
      × ((j : PublicKey) → source ≢ j → get p'.paths j ≡ get p.paths j)

  get_path-insert :
      (j : PathInfo)
      → j.path ≡ path
      → j.broken ≡ false
      → j.cached_traffic ≡ none
      → (rumors : Map PublicKey PathRumor)
      → HasNew (record p { paths = insert p.paths source j; rumors = rumors })
  unfolding get_path needs_traffic_cache live_path
  get_path-insert j h k c rumors = (
    rw (get-insert p.paths source source j, beq_refl source, k, h) refl,
    rw (needs_traffic_cache, get-insert p.paths source source j, beq_refl source, c) refl,
    λ i ne. ground (arith, get-insert p.paths source i j, bytes_beq_iff source i),
  )

  accept_known-accepted :
      (info : PathInfo)
      → (accept_known p source info seq path now).1 ≡ true
      → HasNew (accept_known p source info seq path now).0
  unfolding accept_known renewed
  accept_known-accepted info h = elim (Bool-cases (leb seq info.seq)) [
    | inl stale ↦ absurd-false (rw (accept_known, stale) at h)
    | inr new ↦ elim (Bool-cases (not info.broken && info.path =? path)) [
      | inl same ↦ absurd-false (rw (accept_known, new, same) at h)
      | inr moved ↦
          rw (accept_known, new, moved)
            (get_path-insert (renewed info seq path now) refl refl refl p.rumors)
    ]
  ]

  accept_new-accepted :
      (accept_new p source xformed seq path now).1 ≡ true
      → HasNew (accept_new p source xformed seq path now).0
  unfolding accept_new found_path
  accept_new-accepted h = elim (Bool-cases (contains_key p.rumors xformed)) [
    | inl asked ↦
        rw (accept_new, asked)
          (get_path-insert (found_path seq path now) refl refl refl
            (modify p.rumors xformed (take_traffic source)))
    | inr unknown ↦ absurd-false (rw (accept_new, unknown) at h)
  ]

  -- After an accepted notification the source is reachable by the new coordinates, no packet is
  -- left in its entry, and the other entries are as before.
  pub accept_notify-accepted :
      (accept_notify p source xformed seq path now).1 ≡ true
      → HasNew (accept_notify p source xformed seq path now).0
  unfolding accept_notify
  accept_notify-accepted h = elim (Option-cases (get p.paths source)) [
    | inl absent ↦
        rw (accept_notify, absent) (accept_new-accepted (rw (accept_notify, absent) at h))
    | inr (info, old) ↦
        rw (accept_notify, old) (accept_known-accepted info (rw (accept_notify, old) at h))
  ]

module _ (p : Pathfinder) (source : PublicKey) (path : List PeerPort) (now : ℕ) where
  -- Coordinates from unsigned traffic never touch an entry that is there.
  pub learn_path-known :
      contains_key p.paths source ≡ true → learn_path_from_traffic p source path now ≡ p
  unfolding learn_path_from_traffic
  learn_path-known h = rw (learn_path_from_traffic, h) refl

  learn_path-unknown :
      contains_key p.paths source ≡ false
      → get (learn_path_from_traffic p source path now).paths source ≡ some (found_path 0 path now)
  unfolding learn_path_from_traffic
  learn_path-unknown h =
      rw
        (
          learn_path_from_traffic,
          h,
          get-insert p.paths source source (found_path 0 path now),
          beq_refl source,
        )
        refl

  -- A path learned from traffic gives way to exactly the notifications with a number that is not 0
  -- and other coordinates.
  pub accept_notify-learn_path_from_traffic_iff :
      contains_key p.paths source ≡ false
      → (xformed : PublicKey) (seq : ℕ) (path' : List PeerPort) (now' : ℕ)
      → ((accept_notify (learn_path_from_traffic p source path now) source xformed seq path' now').1
          ≡ true)
        ↔ ((0 < seq) × (path ≢ path'))
  unfolding Acceptable found_path
  accept_notify-learn_path_from_traffic_iff h xformed seq path' now' =
      let p' = learn_path_from_traffic p source path now in
      let found = learn_path-unknown h in
      let (to, from) = rw found at (accept_notify_iff p' source xformed seq path' now') in
      (λ a. ((to a).0, not-broken (to a).1), λ (l, n). from (l, inr n))
