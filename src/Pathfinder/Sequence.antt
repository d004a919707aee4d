-- ===== src/Pathfinder/Sequence.antt =====
-- A known path is replaced, or used again once it is broken, only by a newer signed notification.
use yggdrasil_ng.Prelude.{
  ℕ, ◌<◌, ◌≡◌, ◌⊎◌, refl, sym, ap, ◌∙◌, inl, inr, List, [], ◌∷◌, none, some, true, false, not, ◌&&◌,
  leb, ◌=?◌, arith, Bool-cases, Option-cases,
}
use yggdrasil_ng.Prelude.Bytes.{bytes_eq, bytes_beq_iff}
use yggdrasil_ng.Prelude.Map.{Map, get, insert, modify, contains_key, get-insert, get-modify}
use yggdrasil_ng.Wire.Path.{PeerPort}
use yggdrasil_ng.Wire.Message.{PublicKey}
use yggdrasil_ng.Traffic.{TrafficPacket}
use yggdrasil_ng.Pathfinder.{PathInfo, Pathfinder, found_path}
use yggdrasil_ng.Pathfinder.Paths.{
  mark_lookup_sent, handle_broken, learn_path_from_traffic, reset_timeout, refreshed, coords_match,
  refresh_if_coords_match, cache_traffic,
}
use yggdrasil_ng.Pathfinder.Notify.{accept_notify, accept_known, accept_new, renewed}

-- The operations that change an entry without removing it.
pub data Event : Type 0 where
  notify : PublicKey → PublicKey → ℕ → List PeerPort → ℕ → Event
  path_broken : PublicKey → Event
  received : PublicKey → List PeerPort → ℕ → Event
  timeout_reset : PublicKey → ℕ → Event
  coords_seen : PublicKey → List PeerPort → ℕ → Event
  lookup_sent : PublicKey → ℕ → Event
  traffic_cached : PublicKey → TrafficPacket → Event

pub apply : Pathfinder → Event → Pathfinder
apply p (notify source xformed seq path now) = (accept_notify p source xformed seq path now).0
apply p (path_broken dest) = handle_broken p dest
apply p (received source path now) = learn_path_from_traffic p source path now
apply p (timeout_reset key now) = reset_timeout p key now
apply p (coords_seen key from now) = refresh_if_coords_match p key from now
apply p (lookup_sent dest now) = mark_lookup_sent p dest now
apply p (traffic_cached dest traffic) = cache_traffic p dest traffic

pub run : Pathfinder → List Event → Pathfinder
run p [] = p
run p (e ∷ es) = run (apply p e) es

-- Either the sequence number has grown, or path and number are the same and a broken path is broken.
abbrev pub Later : PathInfo → PathInfo → Type 0
Later i j =
    (i.seq < j.seq) ⊎ ((i.seq ≡ j.seq) × (i.path ≡ j.path) × (i.broken ≡ true → j.broken ≡ true))

Later-refl : (i : PathInfo) → Later i i
Later-refl i = inr (refl, refl, λ b. b)

Later-trans : (i j k : PathInfo) → Later i j → Later j k → Later i k
Later-trans i j k (inl h) (inl l) = inl (omega arith)
Later-trans i j k (inl h) (inr (l, m, n)) = inl (omega arith)
Later-trans i j k (inr (h, f, g)) (inl l) = inl (omega arith)
Later-trans i j k (inr (h, f, g)) (inr (l, m, n)) = inr (h ∙ l, f ∙ m, λ b. n (g b))

-- The key still has an entry, and it is later than `i`.
abbrev pub HasLater : Map PublicKey PathInfo → PublicKey → PathInfo → Type 0
HasLater paths key i = (j : PathInfo) × (get paths key ≡ some j) × Later i j

module _ (paths : Map PublicKey PathInfo) (key : PublicKey) (i : PathInfo) where
  modify-Later :
      (dest : PublicKey) (f : PathInfo → PathInfo)
      → ((x : PathInfo) → Later x (f x))
      → get paths key ≡ some i
      → HasLater (modify paths dest f) key i
  modify-Later dest f later h = elim (Bool-cases (dest =? key)) [
    | inl same ↦ (f i, rw (get-modify paths dest key f, same, h) refl, later i)
    | inr other ↦ (i, rw (get-modify paths dest key f, other, h) refl, Later-refl i)
  ]

  insert-Later :
      (dest : PublicKey) (info j : PathInfo)
      → get paths dest ≡ some info
      → Later info j
      → get paths key ≡ some i
      → HasLater (insert paths dest j) key i
  insert-Later dest info j old later h = elim (Bool-cases (dest =? key)) [
    | inl same ↦
        let e : some info ≡ some i =
          sym old ∙ ap (get paths) ((bytes_beq_iff dest key).0 same) ∙ h in
        let eq : info ≡ i = cc e in (j, rw (get-insert paths dest key j, same) refl, rw eq at later)
    | inr other ↦ (i, rw (get-insert paths dest key j, other) h, Later-refl i)
  ]

  insert_new-Later :
      (dest : PublicKey) (j : PathInfo)
      → get paths dest ≡ none
      → get paths key ≡ some i
      → HasLater (insert paths dest j) key i
  insert_new-Later dest j absent h = elim (Bool-cases (dest =? key)) [
    | inl same ↦
        let e : none ≡ some i = sym absent ∙ ap (get paths) ((bytes_beq_iff dest key).0 same) ∙ h in
        cc e
    | inr other ↦ (i, rw (get-insert paths dest key j, other) h, Later-refl i)
  ]

renewed-newer :
    (info : PathInfo) (seq : ℕ) (path : List PeerPort) (now : ℕ)
    → leb seq info.seq ≡ false
    → info.seq < (renewed info seq path now).seq
unfolding renewed
renewed-newer info seq path now h = ground arith

refreshed-Later : (now : ℕ) (i : PathInfo) → Later i (refreshed now i)
unfolding refreshed
refreshed-Later now i = elim (Bool-cases i.broken) [
  | inl b ↦ rw (refreshed, b) (inr (refl, refl, λ h. h))
  | inr b ↦ rw (refreshed, b) (inr (refl, refl, λ h. h))
]

module _ (p : Pathfinder) (key : PublicKey) (i : PathInfo) (h : get p.paths key ≡ some i) where
  accept_known-Later :
      (source : PublicKey) (info : PathInfo) (seq : ℕ) (path : List PeerPort) (now : ℕ)
      → get p.paths source ≡ some info
      → HasLater (accept_known p source info seq path now).0.paths key i
  unfolding accept_known
  accept_known-Later source info seq path now old = elim (Bool-cases (leb seq info.seq)) [
    | inl stale ↦ rw (accept_known, stale) (i, h, Later-refl i)
    | inr new ↦ elim (Bool-cases (not info.broken && info.path =? path)) [
      | inl same ↦ rw (accept_known, new, same) (i, h, Later-refl i)
      | inr moved ↦
          rw (accept_known, new, moved)
            (insert-Later p.paths key i source info (renewed info seq path now) old
              (inl (renewed-newer info seq path now new)) h)
    ]
  ]

  accept_new-Later :
      (source xformed : PublicKey) (seq : ℕ) (path : List PeerPort) (now : ℕ)
      → get p.paths source ≡ none
      → HasLater (accept_new p source xformed seq path now).0.paths key i
  unfolding accept_new
  accept_new-Later source xformed seq path now absent =
      elim (Bool-cases (contains_key p.rumors xformed)) [
        | inl asked ↦
            rw (accept_new, asked)
              (insert_new-Later p.paths key i source (found_path seq path now) absent h)
        | inr unknown ↦ rw (accept_new, unknown) (i, h, Later-refl i)
      ]

  accept_notify-Later :
      (source xformed : PublicKey) (seq : ℕ) (path : List PeerPort) (now : ℕ)
      → HasLater (accept_notify p source xformed seq path now).0.paths key i
  unfolding accept_notify
  accept_notify-Later source xformed seq path now = elim (Option-cases (get p.paths source)) [
    | inl absent ↦ rw (accept_notify, absent) (accept_new-Later source xformed seq path now absent)
    | inr (info, old) ↦ rw (accept_notify, old) (accept_known-Later source info seq path now old)
  ]

  learn-Later :
      (source : PublicKey) (path : List PeerPort) (now : ℕ)
      → HasLater (learn_path_from_traffic p source path now).paths key i
  unfolding learn_path_from_traffic contains_key
  learn-Later source path now = elim (Option-cases (get p.paths source)) [
    | inl absent ↦
        rw (learn_path_from_traffic, contains_key, absent)
          (insert_new-Later p.paths key i source (found_path 0 path now) absent h)
    | inr (info, old) ↦ rw (learn_path_from_traffic, contains_key, old) (i, h, Later-refl i)
  ]

  apply-Later : (e : Event) → HasLater (apply p e).paths key i
  unfolding apply handle_broken reset_timeout refresh_if_coords_match mark_lookup_sent cache_traffic
  apply-Later (notify source xformed seq path now) = accept_notify-Later source xformed seq path now
  apply-Later (path_broken dest) =
      modify-Later p.paths key i dest (λ x. record x { broken = true })
        (λ x. inr (refl, refl, λ b. refl)) h
  apply-Later (received source path now) = learn-Later source path now
  apply-Later (timeout_reset k now) =
      modify-Later p.paths key i k (refreshed now) (refreshed-Later now) h
  apply-Later (coords_seen k from now) = elim (Bool-cases (coords_match from (get p.paths k))) [
    | inl match ↦
        rw (refresh_if_coords_match, match)
          (modify-Later p.paths key i k (refreshed now) (refreshed-Later now) h)
    | inr other ↦ rw (refresh_if_coords_match, other) (i, h, Later-refl i)
  ]
  apply-Later (lookup_sent dest now) =
      modify-Later p.paths key i dest (λ x. record x { req_time = now })
        (λ x. inr (refl, refl, λ b. b)) h
  apply-Later (traffic_cached dest traffic) =
      modify-Later p.paths key i dest (λ x. record x { cached_traffic = some traffic })
        (λ x. inr (refl, refl, λ b. b)) h

-- Under any run of the operations other than the clean-up, an entry of the path table stays, and
-- its coordinates change or a broken path becomes usable only with a greater sequence number.
pub run-Later :
    (es : List Event) (p : Pathfinder) (key : PublicKey) (i : PathInfo)
    → get p.paths key ≡ some i
    → (j : PathInfo) × (get (run p es).paths key ≡ some j) × Later i j
unfolding run
run-Later [] p key i h = (i, h, Later-refl i)
run-Later (e ∷ es) p key i h =
    let (j, found, later) = apply-Later p key i h e in
    let (k, found', later') = run-Later es (apply p e) key j found in
    (k, found', Later-trans i j k later later')
