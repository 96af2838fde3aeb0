-- ===== src/Connection/Invariant/Opening.antt =====
-- HEADERS and CONTINUATION keep the invariant.
use pajamax.Prelude.{
  ℕ, ◌+◌, ◌-◌, ◌%◌, ◌≤◌, ◌<◌, ◌≡◌, refl, sym, ap, subst, arith, Bool, Bool-cases, inl, inr, Option,
  none, some, List, [], ◌∷◌, ◌++◌, Bytes, length, length-append, All, leb, ◌==◌,
}
use pajamax.Outcome.{OnOk-bind}
use pajamax.Http2.{strip_headers, is_end_headers, is_end_stream}
use pajamax.Hpack.Decoder.{Decoder}
use pajamax.Connection.Process.State.{Env, Conn, Stream, Pending}
use pajamax.Connection.Process.{
  resolve_route, open_stream, admit_headers, on_headers, on_continuation,
}
use pajamax.Connection.Invariant.{total, Inv, Served, Routed}
use pajamax.Connection.Invariant.Streams.{Rising, Rising-mono, Rising-append}
use pajamax.Connection.Invariant.Frames.{Keeps, emit-Inv}
use pajamax.Connection.Invariant.Routes.{resolve_route_inv}

-- A connection that waits for no CONTINUATION, and whose open streams are all below `id`.
record IsFresh (env : Env) (c : Conn) (id : ℕ) : Type 0 where
  ids : Rising (length env.services) 0 (id - 1) c.streams
  positive : 0 < id
  odd : id % 2 ≡ 1
  last : c.last_client_stream_id ≡ id
  idle : c.continuation_buf ≡ none
  fits : length c.streams ≤ env.max_concurrent_streams
  credit : total c.stream_data_lens ≡ c.data_len
  routes : All (Routed (length env.services)) c.route_cache
  spawned : All (Served (length env.services)) c.effects

-- No stream joins.
IsFresh-Inv : (env : Env) (c : Conn) (id : ℕ) → IsFresh env c id → Inv env c
IsFresh-Inv env c id v = record {
  ids =
      rw (v.idle, v.last)
        (Rising-mono _ 0 0 (id - 1) id c.streams (omega arith) (omega arith) v.ids);
  pending = rw v.idle tt;
  room = rw v.idle (omega (arith, v.fits));
  credit = v.credit;
  routes = v.routes;
  spawned = v.spawned;
}

-- The stream joins.
push-Inv :
    (env : Env) (c : Conn) (id : ℕ) (s : Stream)
    → IsFresh env c id
    → length c.streams < env.max_concurrent_streams
    → s.id ≡ id
    → s.isvc < length env.services
    → Inv env (record c { streams = c.streams ++ s ∷ [] })
push-Inv env c id s v room e h = record {
  ids =
      rw (v.idle, v.last, ← e)
        (Rising-append _ 0 (id - 1) c.streams s v.ids (omega (arith, v.positive))
          (record { odd = rw e v.odd; served = h }));
  pending = rw v.idle tt;
  room = rw v.idle (omega (arith, room, length-append c.streams (s ∷ [])));
  credit = v.credit;
  routes = v.routes;
  spawned = v.spawned;
}

-- The stream waits for its CONTINUATION.
pending-Inv :
    (env : Env) (c : Conn) (id : ℕ) (end : Bool) (buf : Bytes)
    → IsFresh env c id
    → length c.streams < env.max_concurrent_streams
    → Inv env (record c {
      continuation_buf = some (record { stream_id = id; end_stream = end; buf = buf });
    })
pending-Inv env c id end buf v room = record {
  ids = rw v.last v.ids;
  pending = (sym v.last, rw v.last v.odd);
  room = omega (arith, room);
  credit = v.credit;
  routes = v.routes;
  spawned = v.spawned;
}

Routed-IsFresh :
    (env : Env) (c : Conn) (id : ℕ) (d : Decoder) (cache : List (ℕ × ℕ))
    → IsFresh env c id
    → All (Routed (length env.services)) cache
    → IsFresh env (record c { hpack_decoder = d; route_cache = cache }) id
Routed-IsFresh env c id d cache v a = record {
  ids = v.ids;
  positive = v.positive;
  odd = v.odd;
  last = v.last;
  idle = v.idle;
  fits = v.fits;
  credit = v.credit;
  routes = a;
  spawned = v.spawned;
}

open_stream-Inv :
    (env : Env) (c : Conn) (id : ℕ) (end : Bool) (buf : Bytes)
    → IsFresh env c id
    → length c.streams < env.max_concurrent_streams
    → Keeps env (open_stream env c id end buf)
unfolding open_stream
open_stream-Inv env c id end buf v room =
    OnOk-bind (Inv env) (resolve_route env c buf) _ λ (c', r, enc) e.
      let (d, cache, same, routed, served) = resolve_route_inv env c buf c' r enc v.routes e in
      let v₁ : IsFresh env c' id =
        subst (λ x. IsFresh env x id) (sym same) (Routed-IsFresh env c id d cache v routed) in
      let room₁ : length c'.streams < env.max_concurrent_streams =
        omega (arith, room, ap (λ (x : Conn). length x.streams) same) in
      elim (Bool-cases end) [
        | inl b ↦ rw b (emit-Inv env c' _ (IsFresh-Inv env c' id v₁) served)
        | inr b ↦ rw b (push-Inv env c' id _ v₁ room₁ refl served)
      ]

admit_headers-Inv :
    (env : Env) (c : Conn) (flags id : ℕ) (payload : Bytes)
    → IsFresh env c id
    → Keeps env (admit_headers env c flags id payload)
unfolding admit_headers
admit_headers-Inv env c flags id payload v =
    elim (Bool-cases (leb env.max_concurrent_streams (length c.streams))) [
      | inl full ↦ rw full (emit-Inv env c _ (IsFresh-Inv env c id v) tt)
      | inr room ↦
          let lt : length c.streams < env.max_concurrent_streams = ground arith in
          rw room (
            OnOk-bind (Inv env) (strip_headers flags payload) _ λ buf e.
              elim (Bool-cases (is_end_headers flags)) [
                | inl b ↦ rw b (open_stream-Inv env c id (is_end_stream flags) buf v lt)
                | inr b ↦ rw b (pending-Inv env c id (is_end_stream flags) buf v lt)
              ])
    ]

pub on_headers-Inv :
    (env : Env) (c : Conn) (flags id : ℕ) (payload : Bytes)
    → Inv env c
    → c.continuation_buf ≡ none
    → Keeps env (on_headers env c flags id payload)
unfolding on_headers
on_headers-Inv env c flags id payload v idle = elim (Bool-cases (id % 2 == 0)) [
  | inl even ↦ rw even tt
  | inr odd ↦ elim (Bool-cases (leb id c.last_client_stream_id)) [
    | inl old ↦ rw (odd, old) tt
    | inr new ↦
        let lt : c.last_client_stream_id < id = ground arith in
        rw (odd, new)
          (admit_headers-Inv env _ flags id payload (record {
            ids =
                Rising-mono _ 0 0 c.last_client_stream_id (id - 1) c.streams (omega arith)
                  (omega arith) (rw idle at v.ids);
            positive = omega arith;
            odd = ground arith;
            last = refl;
            idle = idle;
            fits = omega (arith, v.room);
            credit = v.credit;
            routes = v.routes;
            spawned = v.spawned;
          }))
  ]
]

pub on_continuation-Inv :
    (env : Env) (c : Conn) (flags : ℕ) (payload : Bytes) (o : Option Pending)
    → Inv env c
    → c.continuation_buf ≡ o
    → Keeps env (on_continuation env c flags payload o)
unfolding on_continuation
on_continuation-Inv env c flags payload none v e = tt
on_continuation-Inv env c flags payload (some p) v e =
    let (last, odd) = pending in
    elim (Bool-cases (is_end_headers flags)) [
      | inl b ↦ rw b (
          open_stream-Inv env _ p.stream_id p.end_stream (p.buf ++ payload)
            (record {
              ids = rw last (rw e at v.ids);
              positive = omega arith;
              odd = rw last odd;
              last = sym last;
              idle = refl;
              fits = omega (arith, room);
              credit = v.credit;
              routes = v.routes;
              spawned = v.spawned;
            })
            (omega (arith, room)))
      | inr b ↦ rw b (record {
        ids = rw e at v.ids;
        pending = (last, odd);
        room = room;
        credit = v.credit;
        routes = v.routes;
        spawned = v.spawned;
      })
    ]
  where
    pending : (p.stream_id ≡ c.last_client_stream_id) × (c.last_client_stream_id % 2 ≡ 1)
    pending = rw e at v.pending

    room : length c.streams + 1 ≤ env.max_concurrent_streams
    room = rw e at v.room
