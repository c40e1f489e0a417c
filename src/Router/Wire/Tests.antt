-- ===== src/Router/Wire/Tests.antt =====
-- Messages of src/router.rs on the wire, with a `serde_json` that knows one request.
use dd2_server.Prelude.{
  ℕ, ◌≡◌, refl, Option, none, some, List, [], ◌∷◌, ◌++◌, if◌then◌else◌, nat_eq, ◌==◌, ok, err,
  arith,
}
use dd2_server.Router.Request.{Request, ty, ping, get_my_rank}
use dd2_server.Router.Response.{Response, ping as server_ping, into}
use dd2_server.Router.Wire.{
  unexpected_eof, invalid_length, invalid_type, cancelled, readable, stopped, await_bytes,
  write_u32_le, read_u32_le, read_u8, read_exact, read_body, read_sized, read_typed, read_frame,
  check_type, read_from_socket, frame, write_to_socket,
}
use dd2_server.Router.Wire.Requests.{
  read_from_socket-frame, read_from_socket_sound, read_frame-write_to_socket,
}

-- A text that starts with 1 is a ping, and one that starts with 3 asks for one's rank.
abbrev from_slice : List ℕ → Option (Request ℕ)
from_slice [] = none
from_slice (b ∷ bs) = if b == 1 then some ping else if b == 3 then some get_my_rank else none

-- A ping with the text 1, 2.
abbrev ping_frame : List ℕ
ping_frame = 7 ∷ 0 ∷ 0 ∷ 0 ∷ 8 ∷ 2 ∷ 0 ∷ 0 ∷ 0 ∷ 1 ∷ 2 ∷ []

-- A frame is read up to its end; a wrong length, a wrong type, a short stream and a cancelled
-- token are errors, and an unknown text is skipped.
read :
    (read_from_socket from_slice readable readable (ping_frame ++ (9 ∷ []))
      ≡ ok (some ping, 9 ∷ []))
    × (read_from_socket from_slice readable readable
          (8 ∷ 0 ∷ 0 ∷ 0 ∷ 8 ∷ 2 ∷ 0 ∷ 0 ∷ 0 ∷ 1 ∷ 2 ∷ [])
        ≡ err invalid_length)
    × (read_from_socket from_slice readable readable (frame 9 (1 ∷ [])) ≡ err invalid_type)
    × (read_from_socket from_slice readable readable (7 ∷ 0 ∷ 0 ∷ 0 ∷ 8 ∷ 2 ∷ 0 ∷ 0 ∷ 0 ∷ 1 ∷ [])
        ≡ err unexpected_eof)
    × (read_from_socket from_slice readable stopped ping_frame ≡ err cancelled)
    × (read_from_socket from_slice readable readable (frame 9 (5 ∷ [])) ≡ ok (none, []))
unfolding read_from_socket read_frame read_typed read_sized read_body read_u32_le write_u32_le
    read_u8 read_exact await_bytes check_type frame ty
read = (refl, refl, refl, refl, refl, refl)

read_from_socket-frame_example :
    read_from_socket from_slice readable readable (frame 8 (1 ∷ 2 ∷ []) ++ (9 ∷ []))
    ≡ ok (some ping, 9 ∷ [])
unfolding ty
read_from_socket-frame_example =
    read_from_socket-frame from_slice 8 (1 ∷ 2 ∷ []) (9 ∷ []) (omega arith)

ping_read : read_from_socket from_slice readable readable ping_frame ≡ ok (some ping, [])
unfolding read_from_socket read_frame read_typed read_sized read_body read_u32_le read_u8 read_exact
    await_bytes check_type ty
ping_read = refl

read_from_socket_sound_example :
    (buf : List ℕ) × (ping_frame ≡ frame 8 buf ++ []) × (from_slice buf ≡ some ping)
unfolding ty
read_from_socket_sound_example =
    read_from_socket_sound from_slice readable readable ping_frame ping [] (omega arith) ping_read

abbrev pong : Response ℕ
pong = server_ping

abbrev to_string : Response ℕ → List ℕ
to_string response = 4 ∷ 5 ∷ []

read_frame-write_to_socket_example :
    read_frame readable readable (write_to_socket to_string pong ++ (6 ∷ []))
    ≡ ok (into pong, 4 ∷ 5 ∷ [], 6 ∷ [])
read_frame-write_to_socket_example =
    read_frame-write_to_socket to_string pong (6 ∷ []) (omega arith)
