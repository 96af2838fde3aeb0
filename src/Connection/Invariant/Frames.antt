-- ===== src/Connection/Invariant/Frames.antt =====
-- Every frame keeps the invariant.
use pajamax.Prelude.{
  ℕ, ◌+◌, ◌%◌, ◌≤◌, ◌<◌, ◌≡◌, refl, arith, Bool-cases, Option-cases, inl, inr, Option, none, some,
  List, [], ◌∷◌, ◌++◌, Bytes, length, All-append, ◌==◌,
}
use pajamax.Outcome.{Outcome, OnOk, OnOk-bind}
use pajamax.Http2.{
  strip_data_padding, is_end_stream, is_ack, is_ping_ack, build_ping_ack, from_be_bytes,
}
use pajamax.Connection.Process.State.{
  Env, Conn, Stream, Effect, spawn, position, remove_at, update_at, emit,
}
use pajamax.Connection.Process.{
  finish_stream, count_data, data_at, on_data, on_settings, settings_loop, on_ping, on_reset,
  on_window_update, decode_grpc_message,
}
use pajamax.Connection.Invariant.{Inv, limit, Served, total}
use pajamax.Connection.Invariant.Streams.{
  Rising, Rising-remove_at, Rising-update_at, length-remove_at, length-update_at, position-found,
}

abbrev pub Keeps : Env → Outcome Conn → Type 0
Keeps env = OnOk (Inv env)

pub emit-Inv :
    (env : Env) (c : Conn) (e : Effect)
    → Inv env c
    → Served (length env.services) e
    → Inv env (emit e c)
unfolding emit
emit-Inv env c e v h = record {
  ids = v.ids;
  pending = v.pending;
  room = v.room;
  credit = v.credit;
  routes = v.routes;
  spawned = All-append (Served (length env.services)) c.effects (e ∷ []) v.spawned (h, tt);
}

-- Streams that are fewer, or have changed bodies.
streams-Inv :
    (env : Env) (c : Conn) (streams : List Stream)
    → Inv env c
    → Rising (length env.services) 0 (limit c.continuation_buf c.last_client_stream_id) streams
    → length streams ≤ length c.streams
    → Inv env (record c { streams = streams })
streams-Inv env c streams v r h = record {
  ids = r;
  pending = v.pending;
  room = omega (arith, v.room);
  credit = v.credit;
  routes = v.routes;
  spawned = v.spawned;
}

pub remove_at-Inv :
    (env : Env) (c : Conn) (i : ℕ)
    → Inv env c
    → Inv env (record c { streams = remove_at i c.streams })
remove_at-Inv env c i v =
    streams-Inv env c (remove_at i c.streams) v (Rising-remove_at _ 0 _ i c.streams v.ids)
      (length-remove_at i c.streams)

pub finish_stream-Inv :
    (env : Env) (c : Conn) (i : ℕ) (s : Stream)
    → Inv env c
    → s.isvc < length env.services
    → Keeps env (finish_stream env c i s)
unfolding finish_stream
finish_stream-Inv env c i s v h =
    OnOk-bind (Inv env) (decode_grpc_message env s.body s.encoding) _ λ message e.
      emit-Inv env (record c { streams = remove_at i c.streams })
        (spawn s.isvc s.req_disc message s.id) (remove_at-Inv env c i v) h

total-append : (lens : List (ℕ × ℕ)) (l : ℕ × ℕ) → total (lens ++ l ∷ []) ≡ total lens + l.1
total-append [] l = omega arith
total-append (x ∷ lens) l = omega (arith, total-append lens l)

pub count_data-Inv : (env : Env) (c : Conn) (id len : ℕ) → Inv env c → Inv env (count_data id len c)
unfolding count_data
count_data-Inv env c id len v = record {
  ids = v.ids;
  pending = v.pending;
  room = v.room;
  credit = omega (arith, v.credit, total-append c.stream_data_lens (id, len));
  routes = v.routes;
  spawned = v.spawned;
}

data_at-Inv :
    (env : Env) (c : Conn) (flags id : ℕ) (req_buf : Bytes) (found : Option (ℕ × Stream))
    → Inv env c
    → position id c.streams ≡ found
    → Keeps env (data_at env c flags req_buf found)
unfolding data_at
data_at-Inv env c flags id req_buf none v e = v
data_at-Inv env c flags id req_buf (some (i, s)) v e =
    let n : ℕ = length env.services in
    let s₁ : Stream = record s { body = s.body ++ req_buf } in
    let (_, o, _) = position-found n 0 _ id i s c.streams v.ids e in
    let v₁ : Inv env (record c { streams = update_at i s₁ c.streams }) =
      streams-Inv env c (update_at i s₁ c.streams) v
        (Rising-update_at n 0 _ id i s s₁ c.streams v.ids e refl refl)
        (omega (arith, length-update_at i s₁ c.streams)) in
    elim (Bool-cases (is_end_stream flags)) [
      | inl b ↦ rw b (finish_stream-Inv env _ i s₁ v₁ o.served)
      | inr b ↦ rw b v₁
    ]

pub on_data-Inv :
    (env : Env) (c : Conn) (flags id len : ℕ) (payload : Bytes)
    → Inv env c
    → Keeps env (on_data env c flags id len payload)
unfolding on_data
on_data-Inv env c flags id len payload v =
    OnOk-bind (Inv env) (strip_data_padding flags payload) _ λ req_buf e.
      data_at-Inv env (count_data id len c) flags id req_buf _ (count_data-Inv env c id len v) refl

pub on_reset-Inv : (env : Env) (c : Conn) (id len : ℕ) → Inv env c → Keeps env (on_reset c id len)
unfolding on_reset
on_reset-Inv env c id len v = elim (Bool-cases (len == 4)) [
  | inl b ↦ elim (Option-cases (position id c.streams)) [
    | inl e ↦ rw (b, e) v
    | inr ((i, s), e) ↦ rw (b, e) (remove_at-Inv env c i v)
  ]
  | inr b ↦ rw b tt
]

pub on_settings-Inv :
    (env : Env) (c : Conn) (flags len : ℕ) (payload : Bytes)
    → Inv env c
    → Keeps env (on_settings c flags len payload)
unfolding on_settings
on_settings-Inv env c flags len payload v = elim (Bool-cases (is_ack flags)) [
  | inl b ↦ rw (b, OnOk) v
  | inr b ↦
      rw (b, OnOk)
        (OnOk-bind (Inv env) (settings_loop len 0 len payload) _ (λ _ _. emit-Inv env c _ v tt))
]

pub on_ping-Inv :
    (env : Env) (c : Conn) (flags : ℕ) (payload : Bytes)
    → Inv env c
    → Keeps env (on_ping c flags payload)
unfolding on_ping
on_ping-Inv env c flags payload v = elim (Bool-cases (is_ping_ack flags)) [
  | inl b ↦ rw b v
  | inr b ↦ rw b (OnOk-bind (Inv env) (build_ping_ack payload []) _ λ out e. emit-Inv env c _ v tt)
]

pub on_window_update-Inv :
    (env : Env) (c : Conn) (payload : Bytes) (len : ℕ)
    → Inv env c
    → Keeps env (on_window_update c payload len)
unfolding on_window_update
on_window_update-Inv env c (b0 ∷ b1 ∷ b2 ∷ b3 ∷ rest) len v = elim (Bool-cases (len == 4)) [
  | inl b ↦ elim (Bool-cases (from_be_bytes (b0 % 128) b1 b2 b3 == 0)) [
    | inl z ↦ rw (b, z) tt
    | inr z ↦ rw (b, z) v
  ]
  | inr b ↦ rw b tt
]
on_window_update-Inv env c _ len v = elim (Bool-cases (len == 4)) [
  | inl b ↦ rw b tt
  | inr b ↦ rw b tt
]
