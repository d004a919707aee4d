-- ===== src/Pathfinder/Waiting.antt =====
-- The packets that wait for a path, and the lookups that `do_maintenance` sends again.
use yggdrasil_ng.Prelude.{
  ◌≡◌, ◌≢◌, ◌⊎◌, ◌↔◌, refl, sym, ap, ◌∙◌, inl, inr, [], ◌∷◌, none, some, true, false, ◌=?◌, arith,
  Bool-cases, Option-cases,
}
use mathlib.Core.List.{Memᴰ}
use mathlib.Core.List.Memᴰ
use yggdrasil_ng.Prelude.Bytes.{bytes_eq}
use yggdrasil_ng.Prelude.Map.{Map, get, get-modify}
use yggdrasil_ng.Wire.Message.{PublicKey}
use yggdrasil_ng.Traffic.{TrafficPacket}
use yggdrasil_ng.Pathfinder.{PathRumor, Pathfinder}
use yggdrasil_ng.Pathfinder.Paths.{get_path, live_path}
use yggdrasil_ng.Pathfinder.Rumors.{cache_rumor_traffic_if_absent, fill_traffic}
use yggdrasil_ng.Pathfinder.Cleanup.{rumors_needing_retry, retry_loop, has_no_path}

has_no_path_iff :
    (p : Pathfinder) (dest : PublicKey) → (has_no_path p dest ≡ true) ↔ (get_path p dest ≡ none)
unfolding has_no_path get_path live_path
has_no_path_iff p dest = (λ h. ground arith, λ h. ground arith)

-- A packet waits for the destination in one of the lookups.
abbrev pub Awaits : Map PublicKey PathRumor → PublicKey → Type 0
Awaits rumors dest =
    (key : PublicKey) × (rumor : PathRumor) × (tr : TrafficPacket) × Memᴰ (key, rumor) rumors
    × (rumor.traffic ≡ some tr)
    × (tr.dest ≡ dest)

module _ (p : Pathfinder) (k : PublicKey) (rumor : PathRumor) (m : Map PublicKey PathRumor) where
  -- The rumor adds the destination of its packet if that has no path, and nothing otherwise.
  retry_loop-cons :
      ((tr : TrafficPacket) × (rumor.traffic ≡ some tr)
        × (get_path p tr.dest ≡ none)
        × (retry_loop p ((k, rumor) ∷ m) ≡ tr.dest ∷ retry_loop p m))
      ⊎ ((retry_loop p ((k, rumor) ∷ m) ≡ retry_loop p m)
          × ((tr : TrafficPacket) → rumor.traffic ≡ some tr → get_path p tr.dest ≢ none))
  unfolding retry_loop
  retry_loop-cons = elim (Option-cases rumor.traffic) [
    | inl idle ↦ inr (rw (retry_loop, idle) refl, λ tr h l. cc (idle, h))
    | inr (tr, waits) ↦ elim (Bool-cases (has_no_path p tr.dest)) [
      | inl dead ↦
          inl (tr, waits, (has_no_path_iff p tr.dest).0 dead, rw (retry_loop, waits, dead) refl)
      | inr live ↦
          inr (rw (retry_loop, waits, live) refl, λ t h l. has_path t tr (cc (h, waits)) live l)
    ]
  ]
    where
      has_path :
          (t tr : TrafficPacket) → t ≡ tr → has_no_path p tr.dest ≡ false → get_path p t.dest ≢ none
      has_path t tr e live l =
          let dead = (has_no_path_iff p tr.dest).1 (rw e at l) in cc (dead, live)

module _ (p : Pathfinder) (dest : PublicKey) where
  retry_tail :
      (k : PublicKey) (rumor : PathRumor) (m : Map PublicKey PathRumor)
      → Awaits m dest × (get_path p dest ≡ none)
      → Awaits ((k, rumor) ∷ m) dest × (get_path p dest ≡ none)
  retry_tail k rumor m ((key, r, pkt, mem, waits, same), dead) =
      ((key, r, pkt, Memᴰ.tail mem, waits, same), dead)

  retry_loop_sound :
      (m : Map PublicKey PathRumor)
      → Memᴰ dest (retry_loop p m)
      → Awaits m dest × (get_path p dest ≡ none)
  unfolding retry_loop
  retry_loop_sound [] h = absurd (Memᴰ.not-nil h)
  retry_loop_sound ((k, rumor) ∷ m) h = elim (retry_loop-cons p k rumor m) [
    | inl (tr, waits, dead, e) ↦ elim (Memᴰ.cases_cons (rw e at h)) [
      | inl same ↦ ((k, rumor, tr, Memᴰ.head refl, waits, sym same), rw same dead)
      | inr there ↦ retry_tail k rumor m (retry_loop_sound m there)
    ]
    | inr (e, live) ↦ retry_tail k rumor m (retry_loop_sound m (rw e at h))
  ]

  retry_head :
      (k : PublicKey) (rumor : PathRumor) (m : Map PublicKey PathRumor) (pkt : TrafficPacket)
      → rumor.traffic ≡ some pkt
      → pkt.dest ≡ dest
      → get_path p dest ≡ none
      → Memᴰ dest (retry_loop p ((k, rumor) ∷ m))
  retry_head k rumor m pkt waits same dead = elim (retry_loop-cons p k rumor m) [
    | inl (sent, waits', dead', e) ↦
        let eq : sent ≡ pkt = cc (waits, waits') in
        rw e (Memᴰ.head (sym same ∙ ap (λ x. x.dest) (sym eq)))
    | inr (e, live) ↦ absurd (live pkt waits (rw same dead))
  ]

  retry_more :
      (k : PublicKey) (rumor : PathRumor) (m : Map PublicKey PathRumor)
      → Memᴰ dest (retry_loop p m)
      → Memᴰ dest (retry_loop p ((k, rumor) ∷ m))
  retry_more k rumor m h = elim (retry_loop-cons p k rumor m) [
    | inl (sent, waits, dead, e) ↦ rw e (Memᴰ.tail h)
    | inr (e, live) ↦ rw e h
  ]

  retry_loop_complete :
      (m : Map PublicKey PathRumor)
      → Awaits m dest
      → get_path p dest ≡ none
      → Memᴰ dest (retry_loop p m)
  unfolding retry_loop
  retry_loop_complete [] (key, r, pkt, h, waits, same) dead = absurd (Memᴰ.not-nil h)
  retry_loop_complete ((k, rumor) ∷ m) (key, r, pkt, h, waits, same) dead =
      elim (Memᴰ.cases_cons h) [
        | inl here ↦ retry_head k rumor m pkt (ap (λ x. x.1.traffic) (sym here) ∙ waits) same dead
        | inr there ↦
            retry_more k rumor m (retry_loop_complete m (key, r, pkt, there, waits, same) dead)
      ]

-- A lookup is retried for exactly the destinations of waiting packets that have no path or a broken
-- one.
pub rumors_needing_retry_iff :
    (p : Pathfinder) (dest : PublicKey)
    → Memᴰ dest (rumors_needing_retry p) ↔ (Awaits p.rumors dest × (get_path p dest ≡ none))
unfolding rumors_needing_retry
rumors_needing_retry_iff p dest =
    (retry_loop_sound p dest p.rumors, λ (h, dead). retry_loop_complete p dest p.rumors h dead)

-- A keepalive leaves a lookup that has a waiting packet as it is.
pub cache_rumor_traffic_if_absent_keeps :
    (p : Pathfinder) (xformed_dest key : PublicKey) (traffic pkt : TrafficPacket)
    (rumor : PathRumor)
    → get p.rumors key ≡ some rumor
    → rumor.traffic ≡ some pkt
    → get (cache_rumor_traffic_if_absent p xformed_dest traffic).rumors key ≡ some rumor
unfolding cache_rumor_traffic_if_absent fill_traffic
cache_rumor_traffic_if_absent_keeps p xformed_dest key traffic pkt rumor h waits =
    let same : fill_traffic traffic rumor ≡ rumor = simp (fill_traffic, waits) in
    elim (Bool-cases (xformed_dest =? key)) [
      | inl eq ↦
          rw (get-modify p.rumors xformed_dest key (fill_traffic traffic), eq, h)
            (ap (λ x. some x) same)
      | inr ne ↦ rw (get-modify p.rumors xformed_dest key (fill_traffic traffic), ne) h
    ]
