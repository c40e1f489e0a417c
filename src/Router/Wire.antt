-- ===== src/Router/Wire.antt =====
-- src/router.rs: `Request::read_from_socket` and `Response::write_to_socket`, over the bytes that
-- the socket's stream still has.
pub mod Words
pub mod Frames
pub mod Requests
mod Tests
use dd2_server.Prelude.{
  ℕ, ◌+◌, ◌*◌, ◌/◌, ◌%◌, ◌^◌, Bool, true, false, not, Option, none, some, List, [], ◌∷◌, ◌++◌,
  String, if◌then◌else◌, ltb, length, take, drop, Result, ok, err, ◌>>=◌, nat_eq, ◌==◌,
}
use dd2_server.Router.Request.{Request, ty}
use dd2_server.Router.Response.{Response, into}

-- The `io::Error`s of the calls.
pub data IoError : Type 0 where
  unexpected_eof invalid_length invalid_type cancelled : IoError
  not_readable : IoError

-- What `await_bytes` sees first: the stream readable, an error of it, or the cancelled token.
pub data Readiness : Type 0 where
  readable failed stopped : Readiness

pub await_bytes : Readiness → Result IoError Unit
await_bytes readable = ok tt
await_bytes failed = err not_readable
await_bytes stopped = err cancelled

pub write_u32_le : ℕ → List ℕ
write_u32_le n = (n % 256) ∷ (n / 256 % 256) ∷ (n / 65536 % 256) ∷ (n / 16777216 % 256) ∷ []

pub read_u32_le : List ℕ → Result IoError (ℕ × List ℕ)
read_u32_le (a ∷ b ∷ c ∷ d ∷ stream) = ok (a + 256 * b + 65536 * c + 16777216 * d, stream)
read_u32_le (a ∷ b ∷ c ∷ []) = err unexpected_eof
read_u32_le (a ∷ b ∷ []) = err unexpected_eof
read_u32_le (a ∷ []) = err unexpected_eof
read_u32_le [] = err unexpected_eof

pub read_u8 : List ℕ → Result IoError (ℕ × List ℕ)
read_u8 [] = err unexpected_eof
read_u8 (a ∷ stream) = ok (a, stream)

pub read_exact : ℕ → List ℕ → Result IoError (List ℕ × List ℕ)
read_exact n stream =
    if ltb (length stream) n then err unexpected_eof else ok (take n stream, drop n stream)

-- `5 + str_len` of two `u32`, which wraps in a release build.
abbrev pub framed_len : ℕ → ℕ
framed_len str_len = (5 + str_len) % 2 ^ 32

-- `read_from_socket` up to its parsing, from its last step to its first: the type, the body, and
-- what the stream still has.
pub read_body : Readiness → ℕ → ℕ → List ℕ → Result IoError (ℕ × List ℕ × List ℕ)
unfolding read_exact
read_body body type str_len stream = do
  _ ← await_bytes body
  (buf, rest) ← read_exact str_len stream
  ok (type, buf, rest)

pub read_sized : Readiness → ℕ → ℕ → List ℕ → Result IoError (ℕ × List ℕ × List ℕ)
read_sized body len type stream = do
  (str_len, stream') ← read_u32_le stream
  if not (len == framed_len str_len)
      then err invalid_length
      else read_body body type str_len stream'

pub read_typed : Readiness → ℕ → List ℕ → Result IoError (ℕ × List ℕ × List ℕ)
read_typed body len stream = do (type, stream') ← read_u8 stream; read_sized body len type stream'

pub read_frame : Readiness → Readiness → List ℕ → Result IoError (ℕ × List ℕ × List ℕ)
read_frame header body stream = do
  _ ← await_bytes header
  (len, stream') ← read_u32_le stream
  read_typed body len stream'

-- A body that is no request is skipped; one of another type than announced is an error.
pub check_type :
    {J : Type 0} → ℕ → Option (Request J) → List ℕ → Result IoError (Option (Request J) × List ℕ)
check_type type none rest = ok (none, rest)
check_type type (some req) rest =
    if not (ty req == type) then err invalid_type else ok (some req, rest)

-- `from_slice` is serde's; the result has what the stream still has.
pub read_from_socket :
    {J : Type 0}
    → (List ℕ → Option (Request J))
    → Readiness
    → Readiness
    → List ℕ
    → Result IoError (Option (Request J) × List ℕ)
read_from_socket from_slice header body stream = do
  (type, buf, rest) ← read_frame header body stream
  check_type type (from_slice buf) rest

-- A frame with a type and a body, whose length `as u32` and with the 5 added wrap.
pub frame : ℕ → List ℕ → List ℕ
frame type body =
    write_u32_le (5 + length body % 2 ^ 32)
    ++ (type ∷ (write_u32_le (length body % 2 ^ 32) ++ body))

-- What is written for a response; `to_string` is serde's, by its bytes.
pub write_to_socket : {J : Type 0} → (Response J → List ℕ) → Response J → List ℕ
unfolding frame
write_to_socket to_string response = frame (into response) (to_string response)
