-- ===== src/Messaging.antt =====
-- api/crates/messaging/src/lib.rs: the messages to the engine and their bytes. A byte is a number
-- below 256, a UUID its 128-bit number.
pub mod Wire
use mathlib.Core.List.{reverse}
use w16crypto_engine.Common.Types.{Side, is_buy}
use w16crypto_engine.Base.{
  leb, ◌==◌, if◌then◌else◌, length, take, drop, ℕ, suc, ◌+◌, ◌*◌, ◌/◌, ◌%◌, Bool, not, ◌&&◌, List,
  [], ◌∷◌, ◌++◌, zero,
}

pub record EngineOrderMsg : Type 0 where
  pub order_id : ℕ
  pub market_id : ℕ
  pub user_id : ℕ
  pub side : Side
  pub price : ℕ
  pub quantity : ℕ
  pub sequence : ℕ
  pub is_market : Bool

pub record EngineCancelMsg : Type 0 where
  pub order_id : ℕ
  pub market_id : ℕ
  pub sequence : ℕ

-- `to_le_bytes` of an integer of the given number of bytes.
unfoldable pub le_bytes : ℕ → ℕ → List ℕ
le_bytes zero v = []
le_bytes (suc n) v = v % 256 ∷ le_bytes n (v / 256)

-- `Uuid::as_bytes`: the most significant byte comes first.
unfoldable pub uuid_bytes : ℕ → List ℕ
unfolding le_bytes
uuid_bytes v = reverse (le_bytes 16 v)

unfoldable pub encode_order_msg : EngineOrderMsg → List ℕ
encode_order_msg msg =
    (1 ∷ [])
    ++ uuid_bytes msg.order_id
    ++ uuid_bytes msg.market_id
    ++ uuid_bytes msg.user_id
    ++ ((if is_buy msg.side then 0 else 1) ∷ [])
    ++ ((if msg.is_market then 1 else 0) ∷ [])
    ++ le_bytes 4 msg.price
    ++ le_bytes 8 msg.quantity
    ++ le_bytes 8 msg.sequence

unfoldable pub encode_cancel_msg : EngineCancelMsg → List ℕ
encode_cancel_msg msg =
    (2 ∷ []) ++ uuid_bytes msg.order_id ++ uuid_bytes msg.market_id ++ le_bytes 8 msg.sequence

-- What `Engine::dispatch` of engine/src/main.cpp reads from a message.
pub data Received : Type 0 where
  add_order : EngineOrderMsg → Received
  cancel_order : EngineCancelMsg → Received
  ignored : Received

-- `read_u32_le`, `read_u64_le`
unfoldable pub read_le : List ℕ → ℕ
read_le [] = 0
read_le (b ∷ bs) = b + 256 * read_le bs

-- `n` bytes from the offset on
abbrev pub field : ℕ → ℕ → List ℕ → List ℕ
field from n bytes = take n (drop from bytes)

unfoldable pub read_uuid : List ℕ → ℕ
read_uuid bs = read_le (reverse bs)

-- `bytes[i]`
abbrev pub byte_at : ℕ → List ℕ → ℕ
byte_at i bytes = read_le (field i 1 bytes)

abbrev pub read_order : List ℕ → EngineOrderMsg
read_order bytes = record {
  order_id = read_uuid (field 1 16 bytes);
  market_id = read_uuid (field 17 16 bytes);
  user_id = read_uuid (field 33 16 bytes);
  side = if byte_at 49 bytes == 0 then Side.buy else Side.sell;
  price = read_le (field 51 4 bytes);
  quantity = read_le (field 55 8 bytes);
  sequence = read_le (field 63 8 bytes);
  is_market = not (byte_at 50 bytes == 0);
}

abbrev pub read_cancel : List ℕ → EngineCancelMsg
read_cancel bytes = record {
  order_id = read_uuid (field 1 16 bytes);
  market_id = read_uuid (field 17 16 bytes);
  sequence = read_le (field 33 8 bytes);
}

-- The branches of `dispatch`, by the first byte and the length.
abbrev pub chosen : ℕ → ℕ → EngineOrderMsg → EngineCancelMsg → Received
chosen op len order cancel =
    if op == 1 && leb 71 len
    then Received.add_order order
    else if op == 2 && leb 41 len
    then Received.cancel_order cancel
    else Received.ignored

unfoldable pub dispatch : List ℕ → Received
dispatch bytes = chosen (byte_at 0 bytes) (length bytes) (read_order bytes) (read_cancel bytes)
