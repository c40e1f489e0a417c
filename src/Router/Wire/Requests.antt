-- ===== src/Router/Wire/Requests.antt =====
-- What `Request::read_from_socket` of src/router.rs accepts, skips and refuses.
use dd2_server.Prelude.{
  ℕ, ◌^◌, ◌<◌, ◌≡◌, refl, Option, none, some, List, ◌++◌, if◌then◌else◌, length, All, Result, ok,
  err, >>=-eq-ok, nat_eq, ◌==◌, arith,
}
use dd2_server.Router.Request.{Request, ty}
use dd2_server.Router.Response.{Response, into}
use dd2_server.Router.Wire.{
  IoError, invalid_type, Readiness, readable, read_frame, check_type, read_from_socket, frame,
  write_to_socket,
}
use dd2_server.Router.Wire.Words.{IsByte}
use dd2_server.Router.Wire.Frames.{read_frame-frame, read_frame_sound}

-- What `check_type` makes of a body, with what follows.
abbrev pub received :
    {J : Type 0} → ℕ → List ℕ → Option (Request J) → Result IoError (Option (Request J) × List ℕ)
received type rest none = ok (none, rest)
received type rest (some req) = if ty req == type then ok (some req, rest) else err invalid_type

module _ {J : Type 0} (from_slice : List ℕ → Option (Request J)) where
  checked :
      (type : ℕ) (rest : List ℕ) (req : Option (Request J))
      → check_type type req rest ≡ received type rest req
  unfolding check_type
  checked type rest none = refl
  checked type rest (some req) = ground arith

  -- A frame whose body is below 4 GiB is taken from the stream whole, and nothing after it. The
  -- result is the request that the body parses to, if the frame has its type, and an error if it
  -- has another; a body that is no request is skipped, and the connection goes on.
  pub read_from_socket-frame :
      (type : ℕ) (body rest : List ℕ)
      → length body < 2 ^ 32
      → read_from_socket from_slice readable readable (frame type body ++ rest)
        ≡ received type rest (from_slice body)
  unfolding read_from_socket
  read_from_socket-frame type body rest h =
      rw (read_frame-frame type body rest h) (checked type rest (from_slice body))

  check_type_sound :
      (type : ℕ) (parsed : Option (Request J)) (rest rest' : List ℕ) (req : Request J)
      → check_type type parsed rest ≡ ok (some req, rest')
      → (parsed ≡ some req) × (ty req ≡ type) × (rest ≡ rest')
  unfolding check_type
  check_type_sound type none rest rest' req e = ground arith
  check_type_sound type (some q) rest rest' req e = ground (arith, nat_eq.beq_iff (ty q) type)

  -- Of a stream of bytes, a request is received only from a frame that has the request's own type
  -- and a body that parses to it, and what the stream still has is what follows that frame.
  pub read_from_socket_sound :
      (header body : Readiness) (stream : List ℕ) (req : Request J) (rest : List ℕ)
      → All IsByte stream
      → read_from_socket from_slice header body stream ≡ ok (some req, rest)
      → (buf : List ℕ) × (stream ≡ frame (ty req) buf ++ rest) × (from_slice buf ≡ some req)
  unfolding read_from_socket
  read_from_socket_sound header body stream req rest bytes e =
      let ((type, buf, rest'), read, e1) =
        >>=-eq-ok (read_frame header body stream)
          {f = λ (type, buf, rest'). check_type type (from_slice buf) rest'} e in
      let (parts, small) = read_frame_sound header body stream bytes read in
      let (parsed, types, rests) = check_type_sound type (from_slice buf) rest' rest req e1 in
      (buf, rw (parts, types, rests) refl, parsed)

-- A client that reads frames as the server does gets each response's code and text back, whatever
-- is sent after it, for texts below 4 GiB.
pub read_frame-write_to_socket :
    {J : Type 0} (to_string : Response J → List ℕ) (response : Response J) (rest : List ℕ)
    → length (to_string response) < 2 ^ 32
    → read_frame readable readable (write_to_socket to_string response ++ rest)
      ≡ ok (into response, to_string response, rest)
unfolding write_to_socket
read_frame-write_to_socket to_string response rest h =
    read_frame-frame (into response) (to_string response) rest h
