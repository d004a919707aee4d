-- ===== src/Router/Order.antt =====
-- The order on announcements of one node: higher sequence number, then lower parent, then lower
-- nonce. It is a strict order, total up to those three fields.
use yggdrasil_ng.Prelude.{◌≡◌, true, false, arith, Bool-cases, inl, inr}
use yggdrasil_ng.Prelude.Bytes.{
  Bytes, bytes_ltb, bytes_ltb_irrefl, bytes_ltb_trans, bytes_ltb_connected,
}
use yggdrasil_ng.Router.{RouterInfo, newer}

pub newer_irrefl : (a : RouterInfo) → newer a a ≡ false
unfolding newer
newer_irrefl a = ground (arith, bytes_ltb_irrefl a.parent)

pub bytes_ltb-asym : (x y : Bytes) → bytes_ltb x y ≡ true → bytes_ltb y x ≡ false
bytes_ltb-asym x y h = elim (Bool-cases (bytes_ltb y x)) [
  | inl k ↦ cc (bytes_ltb_trans x y x h k, bytes_ltb_irrefl x)
  | inr k ↦ k
]

pub newer_trans : (a b c : RouterInfo) → newer a b ≡ true → newer b c ≡ true → newer a c ≡ true
unfolding newer
newer_trans a b c h k = ground (
  arith,
  bytes_ltb_trans c.parent b.parent a.parent,
  bytes_ltb-asym c.parent b.parent,
  bytes_ltb-asym b.parent a.parent,
  bytes_ltb-asym c.parent a.parent,
  bytes_ltb_connected a.parent b.parent,
  bytes_ltb_connected b.parent c.parent,
  bytes_ltb_connected a.parent c.parent,
)

-- Of two announcements neither replaces the other only where the compared fields agree.
pub newer_connected :
    (a b : RouterInfo)
    → newer a b ≡ false
    → newer b a ≡ false
    → (a.seq ≡ b.seq) × (a.parent ≡ b.parent) × (a.nonce ≡ b.nonce)
unfolding newer
newer_connected a b h k =
    ground (arith, bytes_ltb_connected a.parent b.parent, bytes_ltb-asym a.parent b.parent)

pub newer_cotrans : (a b c : RouterInfo) → newer a b ≡ false → newer b c ≡ false → newer a c ≡ false
unfolding newer
newer_cotrans a b c h k = ground (
  arith,
  bytes_ltb_trans a.parent b.parent c.parent,
  bytes_ltb-asym a.parent b.parent,
  bytes_ltb-asym b.parent c.parent,
  bytes_ltb-asym a.parent c.parent,
  bytes_ltb_connected a.parent b.parent,
  bytes_ltb_connected b.parent c.parent,
  bytes_ltb_connected a.parent c.parent,
)
