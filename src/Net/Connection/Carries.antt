-- ===== src/Net/Connection/Carries.antt =====
-- net/TcpConnection.cpp: what each handler does with the bytes that are to be sent.
use rabbit_server.Prelude.{
  ◌≡◌, inl, inr, refl, ap, ap₂, sym, subst, ◌∙◌, true, not, ◌&&◌, ◌||◌, List, [], ◌∷◌, ◌++◌, arith,
  if◌then◌else◌, ◌==◌, ltb, Bytes, length, take, drop, append_assoc, append-nil, Bool-cases,
  take-append-drop, drop-length,
}
use rabbit_server.Vector.{Allocator}
use rabbit_server.Buffer.Contents.{IsValid, length-contents, contents-retrieve, retrieve-IsValid}
use rabbit_server.Buffer.Append.{Keeps, contents-append, append-IsValid}
use rabbit_server.Buffer.{
  contents, readable_bytes, retrieve, ReadOutcome, failed, received, read_fd,
}
use rabbit_server.Net.Channel.{disable_writing}
use rabbit_server.Net.Connection.{
  TcpConnection, Effect, wrote, updates, Handled, WriteOutcome, count_of, is_connected,
  is_disconnecting, is_connecting, handle_close, then_do, connection_destroyed, handle_hup,
  handle_read, close_connection, close_connection_in_loop, is_direct, direct_count, keep_rest,
  send_in_loop, drained, handle_write,
}

-- The bytes that the socket took.
abbrev pub wire : List Effect → Bytes
wire [] = []
wire (wrote s ∷ es) = s ++ wire es
wire (_ ∷ es) = wire es

pub wire-append : (es fs : List Effect) → wire (es ++ fs) ≡ wire es ++ wire fs
wire-append [] fs = refl
wire-append (wrote s ∷ es) fs =
    ap (◌++◌ s) (wire-append es fs) ∙ sym (append_assoc s (wire es) (wire fs))
wire-append (updates ∷ es) fs = wire-append es fs
wire-append (_ ∷ es) fs = wire-append es fs

-- The bytes that wait for the socket.
abbrev pub pending : TcpConnection → Bytes
pending c = contents c.out_buffer

-- A handler that passes these bytes on: to the socket, or to the buffer behind what waits there.
pub record Carries (c : TcpConnection) (bytes : Bytes) (r : Handled) : Type 0 where
  pub valid : IsValid r.0.out_buffer
  pub stream : wire r.1 ++ pending r.0 ≡ pending c ++ bytes

-- A handler that leaves the output buffer alone, and writes nothing.
pub quiet :
    (c : TcpConnection) (r : Handled)
    → IsValid c.out_buffer
    → r.0.out_buffer ≡ c.out_buffer
    → wire r.1 ≡ []
    → Carries c [] r
quiet c r v b w = record {
  valid = subst IsValid (sym b) v;
  stream = ap₂ (◌++◌) w (ap contents b) ∙ sym (append-nil (pending c));
}

handle_close-Carries : (c : TcpConnection) → IsValid c.out_buffer → Carries c [] (handle_close c)
unfolding handle_close
handle_close-Carries c v = elim (Bool-cases (is_disconnecting c.state || is_connected c.state)) [
  | inl live ↦ rw live (quiet c _ v refl refl)
  | inr gone ↦ rw gone (quiet c _ v refl refl)
]

pub handle_read-Carries :
    (a : Allocator) (c : TcpConnection) (r : ReadOutcome)
    → IsValid c.out_buffer
    → Carries c [] (handle_read a c r)
unfolding handle_read
handle_read-Carries a c (failed e) v = quiet c _ v refl refl
handle_read-Carries a c (received []) v =
    let d : TcpConnection = record c { in_buffer = read_fd a c.in_buffer (received []) } in
    let h = handle_close-Carries d v in record { valid = h.valid; stream = h.stream }
handle_read-Carries a c (received (x ∷ xs)) v = quiet c _ v refl refl

pub connection_destroyed-quiet :
    (c : TcpConnection)
    → ((connection_destroyed c).0.out_buffer ≡ c.out_buffer)
      × (wire (connection_destroyed c).1 ≡ [])
unfolding connection_destroyed
connection_destroyed-quiet c =
    elim (Bool-cases (is_connected c.state || is_disconnecting c.state)) [
      | inl live ↦ rw live (refl, refl)
      | inr gone ↦ rw gone (refl, refl)
    ]

pub handle_hup-Carries : (c : TcpConnection) → IsValid c.out_buffer → Carries c [] (handle_hup c)
unfolding handle_hup connection_destroyed
handle_hup-Carries c v = elim (Bool-cases (is_connected c.state || is_disconnecting c.state)) [
  | inl live ↦ rw live (quiet c _ v refl refl)
  | inr gone ↦ rw gone (quiet c _ v refl refl)
]

pub close_in_loop-Carries :
    (c : TcpConnection) → IsValid c.out_buffer → Carries c [] (close_connection_in_loop c)
unfolding close_connection_in_loop
close_in_loop-Carries c v = elim (Bool-cases (is_connected c.state || is_connecting c.state)) [
  | inr gone ↦ rw gone (quiet c _ v refl refl)
  | inl live ↦ rw live (elim (Bool-cases (not c.channel.writing)) [
    | inl idle ↦ rw idle (handle_close-Carries c v)
    | inr busy ↦ rw busy (quiet c _ v refl refl)
  ])
]

pub close_connection-Carries :
    (c : TcpConnection) → IsValid c.out_buffer → Carries c [] (close_connection c)
unfolding close_connection
close_connection-Carries c v = elim (Bool-cases (is_connected c.state || is_connecting c.state)) [
  | inl live ↦ quiet c _ v refl (rw live)
  | inr gone ↦ quiet c _ v refl (rw gone)
]

-- One handler after another.
then_do-Carries :
    (c : TcpConnection) (r : Handled) (f : TcpConnection → Handled) (x y : Bytes)
    → Carries c x r
    → Carries r.0 y (f r.0)
    → Carries c (x ++ y) (then_do r f)
then_do-Carries c r f x y h k = record {
  valid = k.valid;
  stream =
      ap (λ w. w ++ pending (f r.0).0) (wire-append r.1 (f r.0).1)
      ∙ append_assoc (wire r.1) (wire (f r.0).1) (pending (f r.0).0)
      ∙ ap (◌++◌ (wire r.1)) k.stream
      ∙ sym (append_assoc (wire r.1) (pending r.0) y)
      ∙ ap (λ w. w ++ y) h.stream
      ∙ append_assoc (pending c) x y;
}

module _ (a : Allocator) where
  keep_rest-Carries :
      (c : TcpConnection) (rest : Bytes)
      → IsValid c.out_buffer
      → Keeps c.out_buffer (length rest)
      → Carries c rest (keep_rest a c rest)
  unfolding keep_rest
  keep_rest-Carries c rest v k = elim (Bool-cases (not c.channel.writing)) [
    | inl idle ↦ rw idle (record {
      valid = append-IsValid a c.out_buffer rest v;
      stream = contents-append a c.out_buffer rest v k;
    })
    | inr busy ↦ rw busy (record {
      valid = append-IsValid a c.out_buffer rest v;
      stream = contents-append a c.out_buffer rest v k;
    })
  ]

  empty_pending : (c : TcpConnection) → IsValid c.out_buffer → is_direct c ≡ true → pending c ≡ []
  empty_pending c v d = no_bytes (pending c) (ground (arith, length-contents c.out_buffer v))
    where
      no_bytes : (s : Bytes) → length s ≡ 0 → s ≡ []
      no_bytes [] h = refl
      no_bytes (x ∷ xs) h = absurd (omega arith)

  -- The bytes that are written at once.
  direct-Carries :
      (c : TcpConnection) (bytes : Bytes) (outcome : WriteOutcome)
      → IsValid c.out_buffer
      → Carries c
          (take (direct_count c outcome) bytes)
          (c, if is_direct c then wrote (take (direct_count c outcome) bytes) ∷ [] else [])
  direct-Carries c bytes outcome v = elim (Bool-cases (is_direct c)) [
    | inl d ↦ rw d (
        let none_wait = empty_pending c v d in
        let s = take (count_of outcome) bytes in
        record {
          valid = v;
          stream =
              ap₂ (◌++◌) (append-nil s) none_wait ∙ append-nil s ∙ ap (λ p. p ++ s) (sym none_wait);
        })
    | inr d ↦ rw d (quiet c _ v refl refl)
  ]

  pub send_in_loop-Carries :
      (c : TcpConnection) (bytes : Bytes) (outcome : WriteOutcome)
      → IsValid c.out_buffer
      → Keeps c.out_buffer (length (drop (direct_count c outcome) bytes))
      → Carries c bytes (send_in_loop a c bytes outcome)
  unfolding send_in_loop
  send_in_loop-Carries c bytes outcome v k =
      let n = direct_count c outcome in
      subst (λ s. Carries c s (send_in_loop a c bytes outcome)) (take-append-drop n bytes)
        (then_do-Carries c (c, if is_direct c then wrote (take n bytes) ∷ [] else [])
          (λ d. if ltb n (length bytes) then keep_rest a d (drop n bytes) else (d, []))
          (take n bytes) (drop n bytes) (direct-Carries c bytes outcome v)
          (elim (Bool-cases (ltb n (length bytes))) [
            | inl some_left ↦ rw some_left (keep_rest-Carries c (drop n bytes) v k)
            | inr all_gone ↦
                rw (all_gone, drop-length n bytes (ground arith)) (quiet c (c, []) v refl refl)
          ]))

drained-Carries : (c : TcpConnection) → IsValid c.out_buffer → Carries c [] (drained c)
unfolding drained
drained-Carries c v =
    let idle : TcpConnection = record c { channel = disable_writing c.channel } in
    then_do-Carries c (idle, updates ∷ [])
      (λ d. if is_disconnecting d.state then handle_close d else (d, [])) [] []
      (quiet c (idle, updates ∷ []) v refl refl)
      (elim (Bool-cases (is_disconnecting c.state)) [
        | inl closing ↦ rw closing (quiet idle _ v refl refl)
        | inr open' ↦ rw open' (quiet idle _ v refl refl)
      ])

pub handle_write-Carries :
    (c : TcpConnection) (outcome : WriteOutcome)
    → IsValid c.out_buffer
    → Carries c [] (handle_write c outcome)
unfolding handle_write
handle_write-Carries c outcome v =
    elim (Bool-cases (c.channel.writing && ltb 0 (count_of outcome))) [
      | inr idle ↦ rw idle (quiet c _ v refl refl)
      | inl busy ↦ rw busy (
          let n = count_of outcome in
          let left : TcpConnection = record c { out_buffer = (retrieve c.out_buffer n).0 } in
          let valid = retrieve-IsValid c.out_buffer n v in
          then_do-Carries c (left, wrote (take n (pending c)) ∷ [])
            (λ d. if readable_bytes d.out_buffer == 0 then drained d else (d, [])) [] []
            (record {
              valid = valid;
              stream =
                  ap₂ (◌++◌) (append-nil (take n (pending c))) (contents-retrieve c.out_buffer n)
                  ∙ take-append-drop n (pending c)
                  ∙ sym (append-nil (pending c));
            })
            (elim (Bool-cases (readable_bytes left.out_buffer == 0)) [
              | inl empty ↦ rw empty (drained-Carries left valid)
              | inr more ↦ rw more (quiet left _ valid refl refl)
            ]))
    ]
