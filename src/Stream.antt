-- ===== src/Stream.antt =====
-- src/stream.zig: `Framer`, which cuts a byte stream into messages. A message that lies whole in a
-- receive buffer is borrowed from it; a fragment is copied to the scratch space, which a shared
-- framer takes from a pool when it needs more than its inline bytes. The scratch space is a list of
-- bytes, of which the first `buffered` hold the fragment.
pub mod Capacity
mod Tests
use wayring.Base.{
  ltb, leb, ◌==◌, if◌then◌else◌, length, take, drop, Result, and_then, message_too_large, ok, err,
  ℕ, ◌+◌, ◌-◌, ◌*◌, min, Bool, true, false, not, ◌&&◌, Option, none, some, List, [], ◌++◌,
}
use wayring.Wire.{Endian, Header, Message, header_len, decode_header, decode_message}

-- What the framer uses of `pools.SharedBlocks`.
pub record BlockPool : Type 1 where
  pub Pool : Type 0
  pub Lease : Type 0
  pub bytes : Lease → List ℕ
  pub acquire : Pool → Result (Lease × Pool)
  pub release : Pool → Lease → Result Pool

-- @memcpy of a source to the bytes from `at` on.
abbrev pub memcpy : ℕ → List ℕ → List ℕ → List ℕ
memcpy at source target = take at target ++ (source ++ drop (at + length source) target)

module _ (blocks : BlockPool) where
  open blocks use {Pool, Lease}

  -- `inline_scratch` is what its bytes are when it becomes the scratch space.
  pub record Framer : Type 0 where
    pub scratch : List ℕ
    pub buffered : ℕ
    pub inline_scratch : List ℕ
    pub shared : Bool
    pub lease : Option Lease
    pub release_before_next : Bool

  -- A call of `next`: the framer, the slice that it advances and the pool behind it.
  pub record State : Type 0 where
    pub framer : Framer
    pub open framer use *
    pub input : List ℕ
    pub pool : Pool

  -- The fragment.
  abbrev pub held : State → List ℕ
  held s = take s.buffered s.scratch

  -- `Framer.init`
  unfoldable pub init : List ℕ → List ℕ → Framer
  init scratch inline_scratch = record {
    scratch = scratch;
    buffered = 0;
    inline_scratch = inline_scratch;
    shared = false;
    lease = none;
    release_before_next = false;
  }

  -- `Framer.initShared`
  unfoldable pub init_shared : List ℕ → Framer
  init_shared inline_scratch = record {
    scratch = [];
    buffered = 0;
    inline_scratch = inline_scratch;
    shared = true;
    lease = none;
    release_before_next = false;
  }

  -- `releaseLease`, where the pool refuses no lease of the framer's (`unreachable`).
  unfoldable pub release_lease : State → State
  release_lease s = elim s.lease [
    | none ↦ s
    | some l ↦ elim (blocks.release s.pool l) [
      | ok p ↦ record s {
        framer = record s.framer { lease = none; scratch = s.inline_scratch };
        pool = p;
      }
      | err _ ↦ s
    ]
  ]

  -- The end of `ensureCapacity`: a block is leased, and given back if it is too small.
  unfoldable pub lease_block : ℕ → State → Result (Unit {0}) × State
  lease_block required s = elim (blocks.acquire s.pool) [
    | err x ↦ (err x, s)
    | ok (l, p) ↦
        if ltb (length (blocks.bytes l)) required
        then elim (blocks.release p l) [
          | ok p' ↦ (err message_too_large, record s { pool = p' })
          | err x ↦ (err x, record s { pool = p })
        ]
        else (
          ok tt,
          record s {
            framer = record s.framer {
              scratch = memcpy 0 (held s) (blocks.bytes l);
              lease = some l;
            };
            pool = p;
          },
        )
  ]

  unfoldable pub is_none : Option Lease → Bool
  is_none none = true
  is_none (some _) = false

  -- `ensureCapacity`
  unfoldable pub ensure_capacity : ℕ → State → Result (Unit {0}) × State
  unfolding is_none
  ensure_capacity required s =
      if leb required (length s.scratch)
      then (ok tt, s)
      else if not s.shared
      then (err message_too_large, s)
      else if leb required (length s.inline_scratch) && is_none s.lease
      then (ok tt, record s { framer = record s.framer { scratch = s.inline_scratch } })
      else if not (is_none s.lease)
      then (err message_too_large, s)
      else lease_block required s

  -- `count` bytes move from the input to the scratch space.
  abbrev pub absorb : ℕ → State → State
  absorb count s = record s {
    framer = record s.framer {
      scratch = memcpy s.buffered (take count s.input) s.scratch;
      buffered = s.buffered + count;
    };
    input = drop count s.input;
  }

  -- The message is complete in the scratch space (the last four lines of `next`).
  unfoldable pub emit : Endian → State → Result (Option Message) × State
  unfolding is_none
  emit e s = elim (decode_message e (held s)) [
    | err x ↦ (err x, s)
    | ok m ↦ (
      ok m,
      record s {
        framer = record s.framer { buffered = 0; release_before_next = not (is_none s.lease) };
      },
    )
  ]

  -- With the header known: fill up to its size.
  unfoldable pub fill_body : Endian → Option Header → State → Result (Option Message) × State
  fill_body e none s = (ok none, s)
  fill_body e (some h) s = and_then (ensure_capacity h.size s) λ _ s₁.
      let s₂ = absorb (min (h.size - s₁.buffered) (length s₁.input)) s₁ in
      if ltb (s₂.buffered) h.size then (ok none, s₂) else emit e s₂

  unfoldable pub read_body : Endian → State → Result (Option Message) × State
  read_body e s = and_then (decode_header e (held s), s) (fill_body e)

  -- Fewer than eight bytes are held: fill up to the header.
  unfoldable pub read_header : Endian → State → Result (Option Message) × State
  read_header e s =
      if ltb (s.buffered) header_len
      then (let count = min (header_len - s.buffered) (length s.input) in
          if ltb (length s.scratch) (s.buffered + count)
          then (err message_too_large, s)
          else if ltb ((absorb count s).buffered) header_len
          then (ok none, absorb count s)
          else read_body e (absorb count s))
      else read_body e s

  -- No message is complete in the input: all of it is held.
  unfoldable pub hold_input : Endian → State → Result (Option Message) × State
  hold_input e s =
      if length s.input == 0
      then (ok none, s)
      else and_then (ensure_capacity (length s.input) s) λ _ s₁.
        if ltb (length s₁.scratch) (length s₁.input)
        then (err message_too_large, s₁)
        else read_header e (record s₁ {
          framer = record s₁.framer {
            scratch = memcpy 0 s₁.input s₁.scratch;
            buffered = length s₁.input;
          };
          input = [];
        })

  -- Nothing is held: a whole message is borrowed from the input.
  unfoldable pub borrow : Endian → State → Result (Option Message) → Result (Option Message) × State
  borrow e s (err x) = (err x, s)
  borrow e s (ok (some m)) = (ok (some m), record s { input = drop m.header.size s.input })
  borrow e s (ok none) = hold_input e s

  unfoldable pub before_next : State → State
  before_next s =
      if s.release_before_next
      then (let s₁ = release_lease s in
          record s₁ { framer = record s₁.framer { release_before_next = false } })
      else s

  resume : Endian → State → Result (Option Message) × State
  resume e s = if s.buffered == 0 then borrow e s (decode_message e s.input) else read_header e s

  -- `Framer.next`
  unfoldable pub next : Endian → State → Result (Option Message) × State
  unfolding resume
  next e s = resume e (before_next s)
