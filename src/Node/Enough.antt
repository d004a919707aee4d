-- ===== src/Node/Enough.antt =====
-- crates/ironwood/src/router.rs: the fuel of `route_traffic`. A lookup for our own key is answered
-- with a notification to ourselves, which carries the present time as its number. Once it is
-- accepted, the path to ourselves has that number and the next one is not accepted.
use yggdrasil_ng.Prelude.{
  ℕ, ◌≡◌, refl, ap, ◌⊎◌, inl, inr, List, Option, none, some, Bool, true, false, leb, if◌then◌else◌,
  ◌=?◌, nat_eq, Option-cases, arith,
}
use mathlib.Core.Option
use yggdrasil_ng.Prelude.Bytes.{bytes_eq, bytes_beq_iff}
use yggdrasil_ng.Prelude.Map.{get, get-insert, get-modify, modify}
use yggdrasil_ng.Wire.Path.{PeerPort}
use yggdrasil_ng.Wire.Message.{PublicKey}
use yggdrasil_ng.Pathfinder.{PathInfo, OwnPathInfo, Pathfinder, found_path, sign, content_equal}
use yggdrasil_ng.Pathfinder.Notify.{accept_notify, accept_known, accept_new, renewed}
use yggdrasil_ng.Router.{Router}
use yggdrasil_ng.Router.Lookup.{lookup}
use yggdrasil_ng.Node.{Node, Outside, self_of, with_pathfinder, cached_coords, next_hop}
use yggdrasil_ng.Node.Handlers.{own_info, fresh_info}

-- Whether a path with at least this number is known.
pub has_seq : ℕ → Option PathInfo → Bool
has_seq seq none = false
has_seq seq (some info) = leb seq info.seq

-- Whether the path to ourselves has the present time as its number.
unfoldable pub settled : Outside → Node → Bool
settled o n = has_seq o.unix_secs (get n.pathfinder.paths (self_of n))

lookup-self_key :
    (r : Router) (path : List PeerPort) (w : ℕ) → (lookup r path w).2.self_key ≡ r.self_key
unfolding lookup
lookup-self_key r path w = ground arith

pub next_hop-self_of :
    (n : Node) (path : List PeerPort) (w : ℕ) → self_of (next_hop n path w).2 ≡ self_of n
unfolding next_hop
next_hop-self_of n path w = lookup-self_key n.router path w

module _ (o : Outside) where
  pub next_hop-settled :
      (n : Node) (path : List PeerPort) (w : ℕ) → settled o (next_hop n path w).2 ≡ settled o n
  unfolding next_hop settled
  next_hop-settled n path w =
      ap (λ k. has_seq o.unix_secs (get n.pathfinder.paths k)) (lookup-self_key n.router path w)

  pub cached_coords-settled :
      (n : Node) (key : PublicKey) → settled o (cached_coords n key).1 ≡ settled o n
  unfolding cached_coords settled
  cached_coords-settled n key = refl

  -- An accepted notification leaves a path with its number, where there was none.
  accept_known-settles :
      (p : Pathfinder) (self : PublicKey) (info : PathInfo) (path : List PeerPort)
      → let r = accept_known p self info o.unix_secs path o.now in
        (r.2 ≡ none)
        ⊎ ((has_seq o.unix_secs (some info) ≡ false)
            × (has_seq o.unix_secs (get r.0.paths self) ≡ true))
  unfolding accept_known has_seq renewed
  accept_known-settles p self info path = ground (
    arith,
    get-insert p.paths self self (renewed info o.unix_secs path o.now),
    bytes_beq_iff self self,
  )

  accept_new-settles :
      (p : Pathfinder) (self xform : PublicKey) (path : List PeerPort)
      → let r = accept_new p self xform o.unix_secs path o.now in
        (r.2 ≡ none) ⊎ (has_seq o.unix_secs (get r.0.paths self) ≡ true)
  unfolding accept_new has_seq found_path
  accept_new-settles p self xform path = ground (
    arith,
    get-insert p.paths self self (found_path o.unix_secs path o.now),
    bytes_beq_iff self self,
  )

  pub accept_notify-settles :
      (n : Node) (xform : PublicKey) (path : List PeerPort)
      → let r = accept_notify n.pathfinder (self_of n) xform o.unix_secs path o.now in
        (r.2 ≡ none) ⊎ ((settled o n ≡ false) × (settled o (with_pathfinder n r.0) ≡ true))
  unfolding accept_notify settled has_seq
  accept_notify-settles n xform path = elim (Option-cases (get n.pathfinder.paths (self_of n))) [
    | inl e ↦
        rw (accept_notify, e)
          (elim (accept_new-settles n.pathfinder (self_of n) xform path) [
            | inl idle ↦ inl idle
            | inr set ↦ inr (refl, set)
          ])
    | inr (info, e) ↦
        rw (accept_notify, e) (accept_known-settles n.pathfinder (self_of n) info path)
  ]

  pub own_info-seq :
      (info : OwnPathInfo) (path : List PeerPort) → (own_info o info path).seq ≡ o.unix_secs
  unfolding own_info fresh_info content_equal sign
  own_info-seq info path = ground arith

  map_seq :
      (f : PathInfo → PathInfo)
      → ((info : PathInfo) → (f info).seq ≡ info.seq)
      → (b : Bool) (i : Option PathInfo)
      → has_seq o.unix_secs (if b then Option.map f i else i) ≡ has_seq o.unix_secs i
  unfolding has_seq
  map_seq f h true none = refl
  map_seq f h true (some info) = ap (leb o.unix_secs) (h info)
  map_seq f h false i = refl

  pub modify-settled :
      (n : Node) (dest : PublicKey) (f : PathInfo → PathInfo)
      → ((info : PathInfo) → (f info).seq ≡ info.seq)
      → settled o
          (with_pathfinder n (record n.pathfinder { paths = modify n.pathfinder.paths dest f }))
        ≡ settled o n
  unfolding settled
  modify-settled n dest f h =
      rw (get-modify n.pathfinder.paths dest (self_of n) f)
        (map_seq f h (dest =? self_of n) (get n.pathfinder.paths (self_of n)))
