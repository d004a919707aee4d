-- ===== src/Pathfinder/Lifetime.antt =====
-- How long paths and lookups are kept.
use yggdrasil_ng.Prelude.{
  ℕ, ◌-◌, ◌+◌, ◌≤◌, ◌<◌, ◌≡◌, ◌⊎◌, ◌↔◌, refl, ◌∙◌, inl, inr, List, [], ◌∷◌, none, some, ◌=?◌, arith,
  Bool-cases, Option-cases,
}
use yggdrasil_ng.Prelude.Bytes.{bytes_eq, bytes_beq_iff}
use yggdrasil_ng.Prelude.Map.{get, insert, modify, contains_key, Distinct, get-insert, get-modify}
use yggdrasil_ng.Prelude.Map.Distinct.{insert-Distinct, modify-Distinct, get-retain_iff}
use yggdrasil_ng.Wire.Message.{PublicKey}
use yggdrasil_ng.Traffic.{TrafficPacket}
use yggdrasil_ng.Pathfinder.{PathInfo, PathRumor, Pathfinder}
use yggdrasil_ng.Pathfinder.Rumors.{
  mark_rumor_retry, cache_rumor_traffic, cache_rumor_traffic_if_absent, fill_traffic, ensure_rumor,
}
use yggdrasil_ng.Pathfinder.Cleanup.{cleanup_expired, keep_path, keep_rumor, expiry_base}

module _ (p : Pathfinder) (path_timeout now : ℕ) (key : PublicKey) where
  -- The clean-up keeps exactly the paths that were refreshed less than the timeout ago.
  pub cleanup_expired-paths_iff :
      (info : PathInfo)
      → Distinct p.paths
      → (get (cleanup_expired p path_timeout now).paths key ≡ some info)
        ↔ ((get p.paths key ≡ some info) × (now - info.last_refresh < path_timeout))
  unfolding cleanup_expired keep_path
  cleanup_expired-paths_iff info h =
      let (to, from) = get-retain_iff (keep_path path_timeout now) p.paths key info h in
      (λ k. ((to k).0, ground (arith, (to k).1)), λ (k, l). from (k, ground arith))

  pub cleanup_expired-rumors_iff :
      (rumor : PathRumor)
      → Distinct p.rumors
      → (get (cleanup_expired p path_timeout now).rumors key ≡ some rumor)
        ↔ ((get p.rumors key ≡ some rumor) × (now - expiry_base rumor < path_timeout))
  unfolding cleanup_expired keep_rumor
  cleanup_expired-rumors_iff rumor h =
      let (to, from) = get-retain_iff (keep_rumor path_timeout now) p.rumors key rumor h in
      (λ k. ((to k).0, ground (arith, (to k).1)), λ (k, l). from (k, ground arith))

-- What a node does with a lookup besides sending it for the application.
pub data RumorEvent : Type 0 where
  retried : PublicKey → ℕ → RumorEvent
  cached : PublicKey → TrafficPacket → RumorEvent
  cached_if_absent : PublicKey → TrafficPacket → RumorEvent
  ensured : PublicKey → ℕ → RumorEvent

pub rumor_step : Pathfinder → RumorEvent → Pathfinder
rumor_step p (retried key now) = mark_rumor_retry p key now
rumor_step p (cached key traffic) = cache_rumor_traffic p key traffic
rumor_step p (cached_if_absent key traffic) = cache_rumor_traffic_if_absent p key traffic
rumor_step p (ensured key now) = (ensure_rumor p key now).0

pub rumor_run : Pathfinder → List RumorEvent → Pathfinder
rumor_run p [] = p
rumor_run p (e ∷ es) = rumor_run (rumor_step p e) es

-- There is a lookup for the key, and it expires as counted from `base`.
abbrev pub ExpiresFrom : Pathfinder → PublicKey → ℕ → Type 0
ExpiresFrom p key base =
    (rumor : PathRumor) × (get p.rumors key ≡ some rumor) × (expiry_base rumor ≡ base)

module _ (p : Pathfinder) (key : PublicKey) (base : ℕ) where
  modify-ExpiresFrom :
      (dest : PublicKey) (f : PathRumor → PathRumor)
      → ((x : PathRumor) → expiry_base (f x) ≡ expiry_base x)
      → ExpiresFrom p key base
      → ExpiresFrom (record p { rumors = modify p.rumors dest f }) key base
  modify-ExpiresFrom dest f same (rumor, h, l) = elim (Bool-cases (dest =? key)) [
    | inl eq ↦ (f rumor, rw (get-modify p.rumors dest key f, eq, h) refl, same rumor ∙ l)
    | inr ne ↦ (rumor, rw (get-modify p.rumors dest key f, ne) h, l)
  ]

  ensure-ExpiresFrom :
      (dest : PublicKey) (now : ℕ)
      → ExpiresFrom p key base
      → ExpiresFrom (ensure_rumor p dest now).0 key base
  unfolding ensure_rumor contains_key
  ensure-ExpiresFrom dest now (rumor, h, l) = elim (Option-cases (get p.rumors dest)) [
    | inl absent ↦
        let new : PathRumor = record {
          traffic = none;
          send_time = none;
          retry_time = none;
          created = now;
        } in
        let kept : get (insert p.rumors dest new) key ≡ some rumor =
          ground (arith, get-insert p.rumors dest key new, bytes_beq_iff dest key) in
        rw (ensure_rumor, contains_key, absent) (rumor, kept, l)
    | inr (old, e) ↦ rw (ensure_rumor, contains_key, e) (rumor, h, l)
  ]

  fill_traffic-expiry_base :
      (traffic : TrafficPacket) (x : PathRumor)
      → expiry_base (fill_traffic traffic x) ≡ expiry_base x
  unfolding fill_traffic expiry_base
  fill_traffic-expiry_base traffic x = ground arith

  rumor_step-ExpiresFrom :
      (e : RumorEvent) → ExpiresFrom p key base → ExpiresFrom (rumor_step p e) key base
  unfolding rumor_step mark_rumor_retry cache_rumor_traffic cache_rumor_traffic_if_absent
      expiry_base
  rumor_step-ExpiresFrom (retried dest now) h =
      modify-ExpiresFrom dest (λ x. record x { retry_time = some now }) (λ x. refl) h
  rumor_step-ExpiresFrom (cached dest traffic) h =
      modify-ExpiresFrom dest (λ x. record x { traffic = some traffic }) (λ x. refl) h
  rumor_step-ExpiresFrom (cached_if_absent dest traffic) h =
      modify-ExpiresFrom dest (fill_traffic traffic) (fill_traffic-expiry_base traffic) h
  rumor_step-ExpiresFrom (ensured dest now) h = ensure-ExpiresFrom dest now h

rumor_run-ExpiresFrom :
    (es : List RumorEvent) (p : Pathfinder) (key : PublicKey) (base : ℕ)
    → ExpiresFrom p key base
    → ExpiresFrom (rumor_run p es) key base
unfolding rumor_run
rumor_run-ExpiresFrom [] p key base h = h
rumor_run-ExpiresFrom (e ∷ es) p key base h =
    rumor_run-ExpiresFrom es (rumor_step p e) key base (rumor_step-ExpiresFrom p key base e h)

ensure_rumor_cases :
    (p : Pathfinder) (key : PublicKey) (now : ℕ)
    → ((ensure_rumor p key now).0 ≡ p)
      ⊎ ((new : PathRumor) × ((ensure_rumor p key now).0
            ≡ record p { rumors = insert p.rumors key new }))
unfolding ensure_rumor
ensure_rumor_cases p key now = elim (Bool-cases (contains_key p.rumors key)) [
  | inl old ↦ inl (rw (ensure_rumor, old) refl)
  | inr absent ↦ inr (
    record { traffic = none; send_time = none; retry_time = none; created = now },
    rw (ensure_rumor, absent) refl,
  )
]

ensure_rumor-Distinct :
    (p : Pathfinder) (key : PublicKey) (now : ℕ)
    → Distinct p.rumors
    → Distinct (ensure_rumor p key now).0.rumors
ensure_rumor-Distinct p key now h = elim (ensure_rumor_cases p key now) [
  | inl e ↦ rw e h
  | inr (new, e) ↦ rw e (insert-Distinct p.rumors key new h)
]

rumor_step-Distinct :
    (p : Pathfinder) (e : RumorEvent) → Distinct p.rumors → Distinct (rumor_step p e).rumors
unfolding rumor_step mark_rumor_retry cache_rumor_traffic cache_rumor_traffic_if_absent
rumor_step-Distinct p (retried key now) h =
    modify-Distinct p.rumors key (λ x. record x { retry_time = some now }) h
rumor_step-Distinct p (cached key traffic) h =
    modify-Distinct p.rumors key (λ x. record x { traffic = some traffic }) h
rumor_step-Distinct p (cached_if_absent key traffic) h =
    modify-Distinct p.rumors key (fill_traffic traffic) h
rumor_step-Distinct p (ensured key now) h = ensure_rumor-Distinct p key now h

rumor_run-Distinct :
    (es : List RumorEvent) (p : Pathfinder) → Distinct p.rumors → Distinct (rumor_run p es).rumors
unfolding rumor_run
rumor_run-Distinct [] p h = h
rumor_run-Distinct (e ∷ es) p h = rumor_run-Distinct es (rumor_step p e) (rumor_step-Distinct p e h)

-- A pending lookup is dropped by the clean-up once the timeout has passed since the application
-- last sent it, whatever retries and packets came in between.
pub rumor_run_expires :
    (es : List RumorEvent) (p : Pathfinder) (key : PublicKey) (rumor : PathRumor)
    (path_timeout now : ℕ)
    → Distinct p.rumors
    → get p.rumors key ≡ some rumor
    → expiry_base rumor + path_timeout ≤ now
    → get (cleanup_expired (rumor_run p es) path_timeout now).rumors key ≡ none
rumor_run_expires es p key rumor path_timeout now d h late =
    let q = rumor_run p es in
    let (last, found, same) = rumor_run-ExpiresFrom es p key (expiry_base rumor) (rumor, h, refl) in
    elim (Option-cases (get (cleanup_expired q path_timeout now).rumors key)) [
      | inl gone ↦ gone
      | inr (kept, e) ↦
          let (there, fresh) =
            (cleanup_expired-rumors_iff q path_timeout now key kept (rumor_run-Distinct es p d)).0
              e in
          let eq : kept ≡ last = cc (there, found) in
          let young : now - expiry_base last < path_timeout = rw eq at fresh in absurd (omega arith)
    ]
