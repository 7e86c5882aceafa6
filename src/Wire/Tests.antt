-- ===== src/Wire/Tests.antt =====
-- src/wire.zig: runs on concrete messages, and the theorems at them.
use wayring.Base.{
  length, take, ok, ℕ, ◌+◌, ◌^◌, ◌<◌, ◌≡◌, refl, false, none, some, List, [], ◌∷◌, ◌++◌, arith,
}
use wayring.Wire.{
  little, big, Header, Message, decode_header, decode_message, read_u32, string, string_value,
  has_nul, take_bytes, uint,
}
use wayring.Wire.Headers.{Fits, IsSendable}
use wayring.Wire.Messages.{frame, IsFramed, decode-frame, decode-take-frame}
use wayring.Wire.Cursors.{string_ok}

abbrev seven : Header
seven = record { object_id = 7; opcode = 3; size = 12 }

abbrev ping : Message
ping = record { header = seven; payload = 42 ∷ 0 ∷ 0 ∷ 0 ∷ [] }

seven-IsSendable : IsSendable seven
seven-IsSendable = record { sender = omega arith; long_enough = omega arith; aligned = omega arith }

seven-Fits : Fits seven
seven-Fits = record {
  object_id_fits = omega arith;
  opcode_fits = omega arith;
  size_fits = omega arith;
}

ping-IsFramed : IsFramed ping
ping-IsFramed = record { sendable = seven-IsSendable; fits = seven-Fits; sized = omega arith }

abbrev wire_bytes : List ℕ
wire_bytes = 0 ∷ 0 ∷ 0 ∷ 7 ∷ 0 ∷ 12 ∷ 0 ∷ 3 ∷ 5 ∷ []

decoded : decode_header big wire_bytes ≡ ok (some seven)
unfolding decode_header read_u32
decoded = refl

decode-frame_example : decode_message little (frame little ping ++ (1 ∷ 2 ∷ [])) ≡ ok (some ping)
decode-frame_example = decode-frame little ping (1 ∷ 2 ∷ []) ping-IsFramed

decode-take-frame_example : decode_message little (take 11 (frame little ping)) ≡ ok none
decode-take-frame_example = decode-take-frame little ping 11 ping-IsFramed (omega arith)

abbrev ok_bytes : List ℕ
ok_bytes = 3 ∷ 0 ∷ 0 ∷ 0 ∷ b'o' ∷ b'k' ∷ 0 ∷ 0 ∷ 8 ∷ []

ok_read : string little ok_bytes ≡ (ok (some (b'o' ∷ b'k' ∷ [])), 8 ∷ [])
unfolding string uint take_bytes read_u32 string_value has_nul
ok_read = refl

abbrev text : List ℕ
text = b'o' ∷ b'k' ∷ []

string_ok_example : (has_nul text ≡ false) × (length text + 1 < 2 ^ 32) × (length ok_bytes ≡ 9)
string_ok_example = string_ok little ok_bytes text (8 ∷ []) (omega arith) ok_read
