-- ===== src/Router/Wire/Frames.antt =====
-- What is read from the wire of src/router.rs is what was written to it.
use dd2_server.Prelude.{
  ℕ, ◌+◌, ◌%◌, ◌^◌, ◌<◌, ◌≡◌, refl, true, List, [], ◌∷◌, ◌++◌, if◌then◌else◌, not, length, All,
  Result, ok, err, ◌>>=◌, >>=-eq-ok, nat_eq, ◌==◌, arith,
}
use dd2_server.Router.Wire.{
  IoError, invalid_length, Readiness, readable, await_bytes, read_u32_le, read_u8, read_exact,
  read_body, read_sized, read_typed, write_u32_le, framed_len, read_frame, frame,
}
use dd2_server.Router.Wire.Words.{
  IsByte, write_u32_le-mod, read_u32_le-write, read_u32_le_sound, read_exact-append,
  read_exact_sound,
}

framed_len_lem : (n : ℕ) → (((5 + n % 2 ^ 32) % 2 ^ 32) == framed_len (n % 2 ^ 32 % 2 ^ 32)) ≡ true
framed_len_lem n = ground arith

small_word : (n : ℕ) → n < 4294967296 → n % 4294967296 % 4294967296 ≡ n
small_word n h = omega arith

frame_lem :
    (type : ℕ) (body rest : List ℕ)
    → frame type body ++ rest
      ≡ write_u32_le (5 + length body % 2 ^ 32)
        ++ (type ∷ (write_u32_le (length body % 2 ^ 32) ++ (body ++ rest)))
unfolding frame write_u32_le
frame_lem type body rest = refl

sized :
    (type : ℕ) (body rest : List ℕ)
    → length body < 2 ^ 32
    → read_sized readable
        ((5 + length body % 2 ^ 32) % 2 ^ 32)
        type
        (write_u32_le (length body % 2 ^ 32) ++ (body ++ rest))
      ≡ ok (type, body, rest)
unfolding read_sized read_body await_bytes
sized type body rest h =
    rw read_u32_le-write
      (rw (framed_len_lem (length body)) (rw (small_word (length body) h, read_exact-append) refl))

-- Reading a frame takes the frame's bytes alone and gives its type and its body.
pub read_frame-frame :
    (type : ℕ) (body rest : List ℕ)
    → length body < 2 ^ 32
    → read_frame readable readable (frame type body ++ rest) ≡ ok (type, body, rest)
unfolding read_frame read_typed read_u8 await_bytes
read_frame-frame type body rest h = rw (frame_lem, read_u32_le-write) (sized type body rest h)

read_body_sound :
    (body : Readiness) (type str_len : ℕ) (stream : List ℕ) {type' : ℕ} {buf rest : List ℕ}
    → read_body body type str_len stream ≡ ok (type', buf, rest)
    → (type ≡ type') × (stream ≡ buf ++ rest) × (length buf ≡ str_len)
unfolding read_body
read_body_sound body type str_len stream {type'} {buf} {rest} e =
    let (u, ready, e1) =
      >>=-eq-ok (await_bytes body)
        {f = λ _. read_exact str_len stream >>= λ (b, r). ok (type, b, r)} e in
    let ((b, r), done, e2) =
      >>=-eq-ok (read_exact str_len stream) {f = λ (b, r). ok (type, b, r)} e1 in
    ground (arith, read_exact_sound str_len stream b r done)

tested :
    {A : Type 0} (a b : ℕ) (r : Result IoError A) (v : A)
    → (if not (a == b) then err invalid_length else r) ≡ ok v
    → (a ≡ b) × (r ≡ ok v)
tested a b r v e = ground (arith, nat_eq.beq_iff a b)

header_word :
    (len n : ℕ) → len ≡ framed_len n → n < 2 ^ 32 → write_u32_le len ≡ write_u32_le (5 + n % 2 ^ 32)
header_word len n e small =
    let less : n % 2 ^ 32 ≡ n = omega arith in rw (e, less) (write_u32_le-mod (5 + n))

read_sized_sound :
    (body : Readiness) (len type : ℕ) (stream : List ℕ) {type' : ℕ} {buf rest : List ℕ}
    → All IsByte stream
    → read_sized body len type stream ≡ ok (type', buf, rest)
    → (type ≡ type')
      × (stream ≡ write_u32_le (length buf % 2 ^ 32) ++ (buf ++ rest))
      × (write_u32_le len ≡ write_u32_le (5 + length buf % 2 ^ 32))
      × (length buf < 2 ^ 32)
unfolding read_sized
read_sized_sound body len type stream {type'} {buf} {rest} bytes e =
    let ((n, s), read, e1) =
      >>=-eq-ok (read_u32_le stream)
        {f = λ (n, s).
          if not (len == framed_len n) then err invalid_length else read_body body type n s}
        e in
    let (parts, bound, bytes') = read_u32_le_sound stream n s bytes read in
    let (same, e2) = tested len (framed_len n) (read_body body type n s) (type', buf, rest) e1 in
    let (types, split, sizes) = read_body_sound body type n s e2 in
    let small : n % 2 ^ 32 ≡ n = omega arith in
    (
      types,
      rw (parts, sizes, small, split) refl,
      rw sizes (header_word len n same bound),
      rw sizes bound,
    )

read_typed_sound :
    (body : Readiness) (len : ℕ) (stream : List ℕ) {type : ℕ} {buf rest : List ℕ}
    → All IsByte stream
    → read_typed body len stream ≡ ok (type, buf, rest)
    → (write_u32_le len ++ stream ≡ frame type buf ++ rest) × (length buf < 2 ^ 32)
unfolding read_typed read_u8
read_typed_sound body len [] bytes e = cc
read_typed_sound body len (t ∷ stream) {type} {buf} {rest} (byte, bytes) e =
    let (types, body_part, header, bound) = read_sized_sound body len t stream bytes e in
    (rw (frame_lem, body_part, types, header) refl, bound)

-- What was read as a frame is one: its bytes are those that writing it gives.
pub read_frame_sound :
    (header body : Readiness) (stream : List ℕ) {type : ℕ} {buf rest : List ℕ}
    → All IsByte stream
    → read_frame header body stream ≡ ok (type, buf, rest)
    → (stream ≡ frame type buf ++ rest) × (length buf < 2 ^ 32)
unfolding read_frame
read_frame_sound header body stream bytes e =
    let (u, ready, e1) =
      >>=-eq-ok (await_bytes header) {f = λ _. read_u32_le stream >>= λ (n, s). read_typed body n s}
        e in
    let ((n, s), read, e2) =
      >>=-eq-ok (read_u32_le stream) {f = λ (n, s). read_typed body n s} e1 in
    let (parts, bound, bytes') = read_u32_le_sound stream n s bytes read in
    let (whole, small) = read_typed_sound body n s bytes' e2 in (rw (parts, whole) refl, small)
