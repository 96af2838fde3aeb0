-- ===== src/Connection/Credit/Frames.antt =====
-- Every frame does the same behind earlier counts and effects.
use pajamax.Prelude.{
  ℕ, ◌+◌, ◌%◌, ◌≡◌, refl, ap, arith, true, false, Bool, Option-cases, inl, inr, Option, none, some,
  List, [], ◌∷◌, ◌++◌, Bytes, length, append_assoc, leb, ltb, ◌==◌, if◌then◌else◌,
}
use pajamax.Outcome.{Outcome, ok, err, panic, stuck, ◌>>=◌}
use pajamax.Http2.{
  FrameKind, HeadFlags, is_end_stream, is_end_headers, is_ack, is_ping_ack, strip_data_padding,
  strip_headers, build_ping_ack, from_be_bytes,
}
use pajamax.Hpack.Decoder.Text.{GrpcEncoding}
use pajamax.Hpack.Decoder.{find_path_and_encoding}
use pajamax.Connection.Process.State.{Env, spawn, Stream, Effect, Pending, Conn, position, emit}
use pajamax.Connection.Process.{
  decode_grpc_message, route_path, resolve_route, open_stream, finish_stream, count_data, data_at,
  on_data, admit_headers, on_headers, on_continuation, settings_loop, on_settings, on_ping,
  on_reset, on_window_update, check_expected, check_stream, dispatch_frame, process_frame, stay,
}
use pajamax.Connection.Credit.{behind, over}

pub over-bind {ℓ κ ι} :
    {A : Type ℓ} {B : Type κ} {C : Type ι} (m : Outcome A) (g : B → C) (f : A → Outcome B)
    (f' : A → Outcome C)
    → ((a : A) → f' a ≡ over g (f a))
    → (m >>= f') ≡ over g (m >>= f)
over-bind (ok a) g f f' h = h a
over-bind (err e) g f f' h = refl
over-bind panic g f f' h = refl
over-bind stuck g f f' h = refl

pub over-both {ℓ κ ι μ} :
    {A : Type ℓ} {B : Type κ} {C : Type ι} {D : Type μ} (m : Outcome A) (m' : Outcome D) (h : A → D)
    (g : B → C) (f : A → Outcome B) (f' : D → Outcome C)
    → m' ≡ over h m
    → ((a : A) → f' (h a) ≡ over g (f a))
    → (m' >>= f') ≡ over g (m >>= f)
over-both (ok a) m' h g f f' e k = rw e (k a)
over-both (err x) m' h g f f' e k = rw e refl
over-both panic m' h g f f' e k = rw e refl
over-both stuck m' h g f f' e k = rw e refl

pub over-if {ℓ κ} :
    {A : Type ℓ} {B : Type κ} (b : Bool) (g : A → B) (m n : Outcome A) (m' n' : Outcome B)
    → m' ≡ over g m
    → n' ≡ over g n
    → (if b then m' else n') ≡ over g (if b then m else n)
over-if true g m n m' n' h k = h
over-if false g m n m' n' h k = k

module _ (d : ℕ) (l : List (ℕ × ℕ)) (es : List Effect) where
  abbrev pub put : Conn → Conn
  put = behind d l es

  emit-behind : (e : Effect) (c : Conn) → emit e (put c) ≡ put (emit e c)
  unfolding emit behind
  emit-behind e c = ap (λ x. record (put c) { effects = x }) (append_assoc es c.effects (e ∷ []))

  pub count_data-behind :
      (id len : ℕ) (c : Conn) → count_data id len (put c) ≡ put (count_data id len c)
  unfolding count_data behind
  count_data-behind id len c =
      let e : d + c.data_len + len ≡ d + (c.data_len + len) = omega arith in
      rw (e, append_assoc l c.stream_data_lens ((id, len) ∷ [])) refl

  pub finish_stream-behind :
      (env : Env) (c : Conn) (i : ℕ) (s : Stream)
      → finish_stream env (put c) i s ≡ over put (finish_stream env c i s)
  unfolding finish_stream behind
  finish_stream-behind env c i s =
      over-bind (decode_grpc_message env s.body s.encoding) put _ _ λ m. ap ok (emit-behind _ _)

  data_at-behind :
      (env : Env) (c : Conn) (flags : HeadFlags) (buf : Bytes) (o : Option (ℕ × Stream))
      → data_at env (put c) flags buf o ≡ over put (data_at env c flags buf o)
  unfolding data_at behind
  data_at-behind env c flags buf none = refl
  data_at-behind env c flags buf (some (i, s)) =
      over-if (is_end_stream flags) put _ _ _ _ (finish_stream-behind env _ i _) refl

  on_data-behind :
      (env : Env) (c : Conn) (flags : HeadFlags) (id len : ℕ) (payload : Bytes)
      → on_data env (put c) flags id len payload ≡ over put (on_data env c flags id len payload)
  unfolding on_data count_data behind
  on_data-behind env c flags id len payload =
      over-bind (strip_data_padding flags payload) put _ _ λ buf.
        rw (count_data-behind id len c) (data_at-behind env (count_data id len c) flags buf _)

  resolve_route-behind :
      (env : Env) (c : Conn) (buf : Bytes)
      → resolve_route env (put c) buf ≡ over (λ r. (put r.0, r.1, r.2)) (resolve_route env c buf)
  unfolding resolve_route behind
  resolve_route-behind env c buf =
      over-bind (find_path_and_encoding buf c.hpack_decoder) (λ r. (put r.0, r.1, r.2)) _ _
        λ r.
          over-bind (route_path env.services c.route_cache r.1.path) (λ r. (put r.0, r.1, r.2)) _ _
            (λ _. refl)

  open_stream-behind :
      (env : Env) (c : Conn) (id : ℕ) (end : Bool) (buf : Bytes)
      → open_stream env (put c) id end buf ≡ over put (open_stream env c id end buf)
  unfolding open_stream behind
  open_stream-behind env c id end buf =
      over-both (resolve_route env c buf) _ (λ r. (put r.0, r.1, r.2)) put _ _
        (resolve_route-behind env c buf) (λ (c', r, enc). opened end c' r enc)
    where
      opened :
          (end : Bool) (c' : Conn) (r : ℕ × ℕ) (enc : GrpcEncoding)
          → ok (
              if end then emit (spawn r.0 r.1 [] id) (put c') else record (put c') {
                streams =
                    c'.streams
                    ++ (record { id = id; isvc = r.0; req_disc = r.1; encoding = enc; body = [] })
                      ∷ [];
              })
            ≡ ok (
                put (
                  if end then emit (spawn r.0 r.1 [] id) c' else record c' {
                    streams =
                        c'.streams
                        ++ (record {
                          id = id;
                          isvc = r.0;
                          req_disc = r.1;
                          encoding = enc;
                          body = [];
                        })
                          ∷ [];
                  }))
      opened true c' r enc = ap ok (emit-behind (spawn r.0 r.1 [] id) c')
      opened false c' r enc = refl

  on_headers-behind :
      (env : Env) (c : Conn) (flags : HeadFlags) (id : ℕ) (payload : Bytes)
      → on_headers env (put c) flags id payload ≡ over put (on_headers env c flags id payload)
  unfolding on_headers admit_headers behind
  on_headers-behind env c flags id payload = over-if (id % 2 == 0) put _ _ _ _ refl (
      over-if (leb id c.last_client_stream_id) put _ _ _ _ refl (
        over-if (leb env.max_concurrent_streams (length c.streams)) put _ _ _ _
          (ap ok (emit-behind _ (record c { last_client_stream_id = id })))
          (over-bind (strip_headers flags payload) put _ _ λ buf.
            over-if (is_end_headers flags) put _ _ _ _
              (open_stream-behind env (record c { last_client_stream_id = id }) id
                (is_end_stream flags) buf)
              refl)))

  on_continuation-behind :
      (env : Env) (c : Conn) (flags : HeadFlags) (payload : Bytes) (o : Option Pending)
      → on_continuation env (put c) flags payload o
        ≡ over put (on_continuation env c flags payload o)
  unfolding on_continuation behind
  on_continuation-behind env c flags payload none = refl
  on_continuation-behind env c flags payload (some p) =
      over-if (is_end_headers flags) put _ _ _ _
        (open_stream-behind env (record c { continuation_buf = none }) p.stream_id p.end_stream
          (p.buf ++ payload))
        refl

  on_settings-behind :
      (c : Conn) (flags : HeadFlags) (len : ℕ) (payload : Bytes)
      → on_settings (put c) flags len payload ≡ over put (on_settings c flags len payload)
  unfolding on_settings
  on_settings-behind c flags len payload =
      over-if (is_ack flags) put _ _ _ _ refl
        (over-bind (settings_loop len 0 len payload) put _ _ (λ _. ap ok (emit-behind _ c)))

  on_ping-behind :
      (c : Conn) (flags : HeadFlags) (payload : Bytes)
      → on_ping (put c) flags payload ≡ over put (on_ping c flags payload)
  unfolding on_ping
  on_ping-behind c flags payload =
      over-if (is_ping_ack flags) put _ _ _ _ refl
        (over-bind (build_ping_ack payload []) put _ _ (λ _. ap ok (emit-behind _ c)))

  on_reset-behind : (c : Conn) (id len : ℕ) → on_reset (put c) id len ≡ over put (on_reset c id len)
  unfolding on_reset behind
  on_reset-behind c id len = elim (Option-cases (position id c.streams)) [
    | inl e ↦ rw e (over-if (len == 4) put _ _ _ _ refl refl)
    | inr (r, e) ↦ rw e (over-if (len == 4) put _ _ _ _ refl refl)
  ]

  on_window_update-behind :
      (c : Conn) (payload : Bytes) (len : ℕ)
      → on_window_update (put c) payload len ≡ over put (on_window_update c payload len)
  unfolding on_window_update
  on_window_update-behind c (b0 ∷ b1 ∷ b2 ∷ b3 ∷ rest) len =
      over-if (len == 4) put _ _ _ _
        (over-if (from_be_bytes (b0 % 128) b1 b2 b3 == 0) put _ _ _ _ refl refl) refl
  on_window_update-behind c _ len = over-if (len == 4) put _ _ _ _ refl refl

  abbrev pub put_first : Conn × Bool → Conn × Bool
  put_first r = (put r.0, r.1)

  stay-behind : (m m' : Outcome Conn) → m' ≡ over put m → stay m' ≡ over put_first (stay m)
  stay-behind m m' h = over-both m m' put put_first _ _ h (λ _. refl)

  dispatch_frame-behind :
      (env : Env) (c : Conn) (kind : FrameKind) (flags : HeadFlags) (id len : ℕ) (payload : Bytes)
      → dispatch_frame env (put c) kind flags id len payload
        ≡ over put_first (dispatch_frame env c kind flags id len payload)
  unfolding dispatch_frame
  dispatch_frame-behind env c FrameKind.data_frame flags id len payload =
      stay-behind _ _ (on_data-behind env c flags id len payload)
  dispatch_frame-behind env c FrameKind.headers flags id len payload =
      stay-behind _ _ (on_headers-behind env c flags id payload)
  dispatch_frame-behind env c FrameKind.continuation flags id len payload =
      stay-behind _ _
        (unfold behind in on_continuation-behind env c flags payload c.continuation_buf)
  dispatch_frame-behind env c FrameKind.settings flags id len payload =
      stay-behind _ _ (on_settings-behind c flags len payload)
  dispatch_frame-behind env c FrameKind.ping flags id len payload =
      stay-behind _ _ (on_ping-behind c flags payload)
  dispatch_frame-behind env c FrameKind.go_away flags id len payload =
      over-if (ltb len 8) put_first _ _ _ _ refl refl
  dispatch_frame-behind env c FrameKind.reset flags id len payload =
      stay-behind _ _ (on_reset-behind c id len)
  dispatch_frame-behind env c FrameKind.window_update flags id len payload =
      stay-behind _ _ (on_window_update-behind c payload len)
  dispatch_frame-behind env c _ flags id len payload = refl

  pub process_frame-behind :
      (env : Env) (c : Conn) (kind : FrameKind) (flags : HeadFlags) (id len : ℕ) (payload : Bytes)
      → process_frame env (put c) kind flags id len payload
        ≡ over put_first (process_frame env c kind flags id len payload)
  unfolding process_frame behind
  process_frame-behind env c kind flags id len payload =
      over-bind (check_expected kind id c.continuation_buf) put_first _ _ λ _.
        over-bind (check_stream kind id) put_first _ _
          λ _. dispatch_frame-behind env c kind flags id len payload
