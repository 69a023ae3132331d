-- ===== src/Messaging/Wire.antt =====
-- A message that the API encodes is the message that the engine reads.
use w16crypto_engine.Messaging.{
  read_uuid, encode_order_msg, read_le, EngineOrderMsg, le_bytes, uuid_bytes, field, Side, byte_at,
  read_order, dispatch, EngineCancelMsg, encode_cancel_msg, is_buy, Received, read_cancel, chosen,
}
use w16crypto_engine.Base.{
  length, u64_bound, u32_bound, ℕ, zero, suc, ◌*◌, ◌/◌, ◌<◌, ◌≡◌, refl, ap, ◌∙◌, arith, ◌==◌,
  if◌then◌else◌, Bool, true, false, not,
}
use mathlib.Core.List.{reverse-reverse}

-- 256 ^ n
bound : ℕ → ℕ
bound zero = 1
bound (suc n) = 256 * bound n

read_le-le_bytes : (n v : ℕ) → v < bound n → read_le (le_bytes n v) ≡ v
unfolding read_le le_bytes bound
read_le-le_bytes zero v h = omega arith
read_le-le_bytes (suc n) v h = omega (arith, read_le-le_bytes n (v / 256) (omega arith))

read_uuid-uuid_bytes : (v : ℕ) → v < bound 16 → read_uuid (uuid_bytes v) ≡ v
unfolding read_uuid uuid_bytes
read_uuid-uuid_bytes v h = ap read_le (reverse-reverse (le_bytes 16 v)) ∙ read_le-le_bytes 16 v h

abbrev pub uuid_bound : ℕ
uuid_bound = 340282366920938463463374607431768211456

-- The fields are values of their Rust types.
unfoldable pub Fits : EngineOrderMsg → Type 0
Fits msg =
    (msg.order_id < uuid_bound)
    × (msg.market_id < uuid_bound)
    × (msg.user_id < uuid_bound)
    × (msg.price < u32_bound)
    × (msg.quantity < u64_bound)
    × (msg.sequence < u64_bound)

order_fields :
    (msg : EngineOrderMsg)
    → (field 1 16 (encode_order_msg msg) ≡ uuid_bytes msg.order_id)
      × (field 17 16 (encode_order_msg msg) ≡ uuid_bytes msg.market_id)
      × (field 33 16 (encode_order_msg msg) ≡ uuid_bytes msg.user_id)
      × (field 51 4 (encode_order_msg msg) ≡ le_bytes 4 msg.price)
      × (field 55 8 (encode_order_msg msg) ≡ le_bytes 8 msg.quantity)
      × (field 63 8 (encode_order_msg msg) ≡ le_bytes 8 msg.sequence)
      × (length (encode_order_msg msg) ≡ 71)
unfolding encode_order_msg uuid_bytes le_bytes
order_fields msg = (refl, refl, refl, refl, refl, refl, refl)

side_byte : (s : Side) → (if (if is_buy s then 0 else 1) == 0 then Side.buy else Side.sell) ≡ s
side_byte Side.buy = refl
side_byte Side.sell = refl

order_flags :
    (msg : EngineOrderMsg)
    → (byte_at 49 (encode_order_msg msg) ≡ (if is_buy msg.side then 0 else 1))
      × (byte_at 50 (encode_order_msg msg) ≡ (if msg.is_market then 1 else 0))
      × (byte_at 0 (encode_order_msg msg) ≡ 1)
unfolding encode_order_msg uuid_bytes le_bytes read_le
order_flags msg = (ground arith, ground arith, refl)

market_byte : (b : Bool) → not ((if b then 1 else 0) == 0) ≡ b
market_byte true = refl
market_byte false = refl

read_order-encode : (msg : EngineOrderMsg) → Fits msg → read_order (encode_order_msg msg) ≡ msg
unfolding Fits bound
read_order-encode msg (o, m, u, p, q, s) =
    let (fo, fm, fu, fp, fq, fs, len) = order_fields msg in
    let (side, kind, op) = order_flags msg in
    λ i. record {
      order_id = (ap read_uuid fo ∙ read_uuid-uuid_bytes msg.order_id o) i;
      market_id = (ap read_uuid fm ∙ read_uuid-uuid_bytes msg.market_id m) i;
      user_id = (ap read_uuid fu ∙ read_uuid-uuid_bytes msg.user_id u) i;
      side = (ap (λ b. if b == 0 then Side.buy else Side.sell) side ∙ side_byte msg.side) i;
      price = (ap read_le fp ∙ read_le-le_bytes 4 msg.price p) i;
      quantity = (ap read_le fq ∙ read_le-le_bytes 8 msg.quantity q) i;
      sequence = (ap read_le fs ∙ read_le-le_bytes 8 msg.sequence s) i;
      is_market = (ap (λ b. not (b == 0)) kind ∙ market_byte msg.is_market) i;
    }

-- The engine reads from the bytes of an order the same order, if its fields fit their types.
pub dispatch-encode_order :
    (msg : EngineOrderMsg) → Fits msg → dispatch (encode_order_msg msg) ≡ Received.add_order msg
unfolding dispatch
dispatch-encode_order msg h =
    let (side, kind, op) = order_flags msg in
    let len = (order_fields msg).6 in
    let read = read_order-encode msg h in
    λ i. chosen (op i) (len i) (read i) (read_cancel (encode_order_msg msg))

-- The fields are values of their Rust types.
unfoldable pub CancelFits : EngineCancelMsg → Type 0
CancelFits msg =
    (msg.order_id < uuid_bound) × (msg.market_id < uuid_bound) × (msg.sequence < u64_bound)

cancel_fields :
    (msg : EngineCancelMsg)
    → (field 1 16 (encode_cancel_msg msg) ≡ uuid_bytes msg.order_id)
      × (field 17 16 (encode_cancel_msg msg) ≡ uuid_bytes msg.market_id)
      × (field 33 8 (encode_cancel_msg msg) ≡ le_bytes 8 msg.sequence)
      × (byte_at 0 (encode_cancel_msg msg) ≡ 2)
      × (length (encode_cancel_msg msg) ≡ 41)
unfolding encode_cancel_msg uuid_bytes le_bytes read_le
cancel_fields msg = (refl, refl, refl, refl, refl)

read_cancel-encode :
    (msg : EngineCancelMsg) → CancelFits msg → read_cancel (encode_cancel_msg msg) ≡ msg
unfolding CancelFits bound
read_cancel-encode msg (o, m, s) =
    let (fo, fm, fs, op, len) = cancel_fields msg in
    λ i. record {
      order_id = (ap read_uuid fo ∙ read_uuid-uuid_bytes msg.order_id o) i;
      market_id = (ap read_uuid fm ∙ read_uuid-uuid_bytes msg.market_id m) i;
      sequence = (ap read_le fs ∙ read_le-le_bytes 8 msg.sequence s) i;
    }

-- The engine reads from the bytes of a cancellation the same one, if its fields fit their types.
pub dispatch-encode_cancel :
    (msg : EngineCancelMsg)
    → CancelFits msg
    → dispatch (encode_cancel_msg msg) ≡ Received.cancel_order msg
unfolding dispatch
dispatch-encode_cancel msg h =
    let (fo, fm, fs, op, len) = cancel_fields msg in
    let read = read_cancel-encode msg h in
    λ i. chosen (op i) (len i) (read_order (encode_cancel_msg msg)) (read i)
