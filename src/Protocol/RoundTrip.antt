-- ===== src/Protocol/RoundTrip.antt =====
-- Encoding and decoding of headers, one after the other.
use easy_uds.Prelude.{
  ℕ, ◌+◌, ◌*◌, ◌/◌, ◌%◌, ◌^◌, ◌≤◌, ◌<◌, ◌≡◌, ◌≢◌, ◌⊎◌, refl, ap, ◌∙◌, zero, suc, arith, List, [],
  ◌∷◌, ok, checks->>-eq-ok, not, ltb, ◌==◌, ◌&&◌, ◌||◌, false, get_or, length,
}
use mathlib.Core.Path.{ap₂}
use easy_uds.Protocol.{
  WireType, request, cancel_request, DecodedHeader, HeaderBytes, encode_header, decode_header,
  header_checks, header_fields, header_flags, get_u32, carries_fd, carries_windows_handle,
  wire_byte, wire_type,
}

-- What a header of the protocol may say.
pub record IsWellFormed (d : DecodedHeader) : Type 0 where
  pub known_version : (d.version ≡ 2) ⊎ (d.version ≡ 3)
  pub id_fits : d.request_id < 2 ^ 32
  pub arg1_fits : d.arg1 < 2 ^ 32
  pub arg2_fits : d.arg2 < 2 ^ 32
  pub known_flags : d.flags < 3
  pub flagged : d.flags ≢ 0 → (d.type ≡ request) × (d.request_id ≡ 0)
  pub cancels :
      d.type ≡ cancel_request → (d.version ≡ 3) × (d.request_id ≢ 0) × (d.arg1 ≡ 0) × (d.arg2 ≡ 0)

wire_type-wire_byte : (t : WireType) → wire_type (wire_byte t) ≡ t
wire_type-wire_byte request = refl
wire_type-wire_byte _ = refl

-- Decoding gives back a well-formed header that was encoded.
pub decode-encode :
    (d : DecodedHeader)
    → IsWellFormed d
    → decode_header (encode_header d.type d.request_id d.arg1 d.arg2 d.flags d.version) ≡ ok d
unfolding encode_header decode_header
decode-encode d w = ground (arith, wire_type-wire_byte d.type)

abbrev pub AllBytes : HeaderBytes → Type 0
AllBytes [] = Unit {0}
AllBytes (b ∷ bs) = (b < 256) × AllBytes bs

-- Twenty bytes.
pub record IsHeader (h : HeaderBytes) : Type 0 where
  pub sized : length h ≡ 20
  pub all_bytes : AllBytes h

AllBytes-get_or : (h : HeaderBytes) → AllBytes h → (i : ℕ) → get_or h i 0 < 256
AllBytes-get_or [] w i = omega arith
AllBytes-get_or (b ∷ bs) w zero = w.0
AllBytes-get_or (b ∷ bs) w (suc i) = AllBytes-get_or bs w.1 i

-- What the header says, byte by byte.
record Reads (h : HeaderBytes) (d : DecodedHeader) : Type 0 where
  magic :
      (get_or h 0 0 ≡ b'E') × (get_or h 1 0 ≡ b'U') × (get_or h 2 0 ≡ b'D') × (get_or h 3 0 ≡ b'S')
  version : get_or h 4 0 ≡ d.version
  type : get_or h 5 0 ≡ wire_byte d.type
  flags : get_or h 6 0 * 2 ^ 8 + get_or h 7 0 ≡ d.flags
  request_id : get_u32 h 8 ≡ d.request_id
  arg1 : get_u32 h 12 ≡ d.arg1
  arg2 : get_u32 h 16 ≡ d.arg2

wire_byte-wire_type : (b : ℕ) → 1 ≤ b → b ≤ 9 → wire_byte (wire_type b) ≡ b
wire_byte-wire_type b lo hi = ground arith

decode-Reads : (h : HeaderBytes) (d : DecodedHeader) → decode_header h ≡ ok d → Reads h d
unfolding decode_header
decode-Reads h d e =
    let (pass, same) = checks->>-eq-ok (header_checks h) (header_fields h) e in
    rw (← same) (record {
      magic = ground arith;
      version = refl;
      type = ground (arith, wire_byte-wire_type (get_or h 5 0));
      flags = refl;
      request_id = refl;
      arg1 = refl;
      arg2 = refl;
    })

get_u32-lt : (h : HeaderBytes) (o : ℕ) → IsHeader h → get_u32 h o < 2 ^ 32
unfolding get_u32
get_u32-lt h o w = omega (
  arith,
  AllBytes-get_or h w.all_bytes o,
  AllBytes-get_or h w.all_bytes (o + 1),
  AllBytes-get_or h w.all_bytes (o + 2),
  AllBytes-get_or h w.all_bytes (o + 3),
)

checked_version : (v : ℕ) → (not (v == 2) && not (v == 3)) ≡ false → (v ≡ 2) ⊎ (v ≡ 3)
checked_version v h = ground arith

-- The two flag checks, over the flags, the type byte and the request id.
module _ (flags raw id : ℕ)
    (fd : (carries_fd flags && (not (raw == 1) || not (id == 0) || carries_windows_handle flags))
      ≡ false)
    (handle : (carries_windows_handle flags && (not (raw == 1) || not (id == 0))) ≡ false)
    (small : not (flags / 4 == 0) ≡ false) where
  checked_flags : flags < 3
  checked_flags = ground arith

  checked_flagged : flags ≢ 0 → (wire_type raw ≡ request) × (id ≡ 0)
  checked_flagged set = ground arith

checked_cancel :
    (raw v id flags a b : ℕ)
    → (ltb raw 1 || ltb 9 raw) ≡ false
    → (raw == 9 && (not (v == 3) || id == 0 || not (flags == 0) || not (a == 0) || not (b == 0)))
      ≡ false
    → wire_type raw ≡ cancel_request
    → (v ≡ 3) × (id ≢ 0) × (a ≡ 0) × (b ≡ 0)
checked_cancel raw v id flags a b known h e = ground (arith, wire_byte-wire_type raw)

-- What decodes from twenty bytes is well formed.
pub decode-IsWellFormed :
    (h : HeaderBytes) (d : DecodedHeader) → IsHeader h → decode_header h ≡ ok d → IsWellFormed d
unfolding decode_header
decode-IsWellFormed h d w e =
    let (pass, same) = checks->>-eq-ok (header_checks h) (header_fields h) e in
    rw (← same) (record {
      known_version = checked_version _ pass.1.0;
      id_fits = get_u32-lt h 8 w;
      arg1_fits = get_u32-lt h 12 w;
      arg2_fits = get_u32-lt h 16 w;
      known_flags =
          checked_flags (header_flags h) (get_or h 5 0) (get_u32 h 8) pass.1.1.1.1.0
            pass.1.1.1.1.1.0 pass.1.1.0;
      flagged =
          checked_flagged (header_flags h) (get_or h 5 0) (get_u32 h 8) pass.1.1.1.1.0
            pass.1.1.1.1.1.0 pass.1.1.0;
      cancels = checked_cancel _ _ _ _ _ _ pass.1.1.1.0 pass.1.1.1.1.1.1.0;
    })

-- A list of known length is the list of its elements.
tabulate : ℕ → (ℕ → ℕ) → List ℕ
tabulate zero f = []
tabulate (suc n) f = f 0 ∷ tabulate n (λ i. f (suc i))

tabulate-get_or : (n : ℕ) (xs : List ℕ) → length xs ≡ n → tabulate n (λ i. get_or xs i 0) ≡ xs
unfolding tabulate
tabulate-get_or zero [] h = refl
tabulate-get_or zero (x ∷ xs) h = absurd (omega arith)
tabulate-get_or (suc n) [] h = absurd (omega arith)
tabulate-get_or (suc n) (x ∷ xs) h = ap (λ r. x ∷ r) (tabulate-get_or n xs (omega arith))

tabulate-ext : (n : ℕ) (f g : ℕ → ℕ) → ((i : ℕ) → i < n → f i ≡ g i) → tabulate n f ≡ tabulate n g
unfolding tabulate
tabulate-ext zero f g h = refl
tabulate-ext (suc n) f g h =
    ap₂ (λ (a : ℕ) (r : List ℕ). a ∷ r) (h 0 (omega arith))
      (tabulate-ext n _ _ (λ i lt. h (suc i) (omega arith)))

word_bytes :
    (h : HeaderBytes) (v o : ℕ)
    → IsHeader h
    → get_u32 h o ≡ v
    → (v / 2 ^ 24 % 256 ≡ get_or h o 0)
      × (v / 2 ^ 16 % 256 ≡ get_or h (o + 1) 0)
      × (v / 2 ^ 8 % 256 ≡ get_or h (o + 2) 0)
      × (v % 256 ≡ get_or h (o + 3) 0)
unfolding get_u32
word_bytes h v o w e = omega (
  arith,
  AllBytes-get_or h w.all_bytes o,
  AllBytes-get_or h w.all_bytes (o + 1),
  AllBytes-get_or h w.all_bytes (o + 2),
  AllBytes-get_or h w.all_bytes (o + 3),
)

flag_bytes :
    (h : HeaderBytes) (f : ℕ)
    → IsHeader h
    → get_or h 6 0 * 2 ^ 8 + get_or h 7 0 ≡ f
    → (f / 2 ^ 8 % 256 ≡ get_or h 6 0) × (f % 256 ≡ get_or h 7 0)
flag_bytes h f w e = omega (arith, AllBytes-get_or h w.all_bytes 6, AllBytes-get_or h w.all_bytes 7)

-- Encoding gives back the twenty bytes that a header was decoded from.
pub encode-decode :
    (h : HeaderBytes) (d : DecodedHeader)
    → IsHeader h
    → decode_header h ≡ ok d
    → encode_header d.type d.request_id d.arg1 d.arg2 d.flags d.version ≡ h
unfolding encode_header get_u32 tabulate
encode-decode h d w e =
    let r = decode-Reads h d e in
    let id = word_bytes h d.request_id 8 w r.request_id in
    let a = word_bytes h d.arg1 12 w r.arg1 in
    let b = word_bytes h d.arg2 16 w r.arg2 in
    let f = flag_bytes h d.flags w r.flags in
    cc (
      r.magic.0, r.magic.1, r.magic.2, r.magic.3, r.version, r.type, f.0, f.1, id.0, id.1, id.2,
      id.3, a.0, a.1, a.2, a.3, b.0, b.1, b.2, b.3,
    )
    ∙ tabulate-get_or 20 h w.sized
