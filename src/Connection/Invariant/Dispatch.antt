-- ===== src/Connection/Invariant/Dispatch.antt =====
-- `process_frame` keeps the invariant on every frame.
use pajamax.Prelude.{ℕ, ◌≡◌, refl, ◌⊎◌, ltb, Bool-cases, inl, inr, Option, none, some, Bytes}
use pajamax.Outcome.{Outcome, ok, OnOk, OnOk-bind, OnOk-eq}
use pajamax.Http2.{FrameKind, kind_eq}
use pajamax.Connection.Process.State.{Env, Conn, Pending}
use pajamax.Connection.Process.{check_expected, check_stream, dispatch_frame, process_frame, stay}
use pajamax.Connection.Invariant.{Inv}
use pajamax.Connection.Invariant.Frames.{
  Keeps, on_data-Inv, on_reset-Inv, on_settings-Inv, on_ping-Inv, on_window_update-Inv,
}
use pajamax.Connection.Invariant.Opening.{on_headers-Inv, on_continuation-Inv}

-- Only a CONTINUATION passes while one is expected.
expected_cases :
    (kind : FrameKind) (id : ℕ) (o : Option Pending) {u : Unit {0}}
    → check_expected kind id o ≡ ok u
    → (kind ≡ FrameKind.continuation) ⊎ (o ≡ none)
unfolding check_expected kind_eq
expected_cases FrameKind.continuation id o e = inl refl
expected_cases _ id none e = inr refl
expected_cases _ id (some p) e = cc

stay-Inv : (env : Env) (m : Outcome Conn) → Keeps env m → OnOk (λ t. Inv env t.0) (stay m)
stay-Inv env m h = OnOk-bind _ m _ (λ c e. OnOk-eq (Inv env) m c h e)

dispatch_frame-Inv :
    (env : Env) (c : Conn) (kind : FrameKind) (flags id len : ℕ) (payload : Bytes)
    → Inv env c
    → (kind ≡ FrameKind.continuation) ⊎ (c.continuation_buf ≡ none)
    → OnOk (λ t. Inv env t.0) (dispatch_frame env c kind flags id len payload)
unfolding dispatch_frame
dispatch_frame-Inv env c FrameKind.data_frame flags id len payload v x =
    stay-Inv env _ (on_data-Inv env c flags id len payload v)
dispatch_frame-Inv env c FrameKind.headers flags id len payload v (inl e) = absurd (cc)
dispatch_frame-Inv env c FrameKind.headers flags id len payload v (inr e) =
    stay-Inv env _ (on_headers-Inv env c flags id payload v e)
dispatch_frame-Inv env c FrameKind.continuation flags id len payload v x =
    stay-Inv env _ (on_continuation-Inv env c flags payload c.continuation_buf v refl)
dispatch_frame-Inv env c FrameKind.settings flags id len payload v x =
    stay-Inv env _ (on_settings-Inv env c flags len payload v)
dispatch_frame-Inv env c FrameKind.ping flags id len payload v x =
    stay-Inv env _ (on_ping-Inv env c flags payload v)
dispatch_frame-Inv env c FrameKind.go_away flags id len payload v x =
    elim (Bool-cases (ltb len 8)) [ inl b ↦ rw b tt | inr b ↦ rw b v ]
dispatch_frame-Inv env c FrameKind.reset flags id len payload v x =
    stay-Inv env _ (on_reset-Inv env c id len v)
dispatch_frame-Inv env c FrameKind.window_update flags id len payload v x =
    stay-Inv env _ (on_window_update-Inv env c payload len v)
dispatch_frame-Inv env c _ flags id len payload v x = v

-- `process_frame` keeps the invariant on every frame that it accepts, whatever its kind, flags,
-- stream and payload.
pub process_frame-Inv :
    (env : Env) (c : Conn) (kind : FrameKind) (flags id len : ℕ) (payload : Bytes)
    → Inv env c
    → OnOk (λ t. Inv env t.0) (process_frame env c kind flags id len payload)
unfolding process_frame
process_frame-Inv env c kind flags id len payload v =
    OnOk-bind (λ t. Inv env t.0) (check_expected kind id c.continuation_buf) _
      λ _ e.
        OnOk-bind (λ t. Inv env t.0) (check_stream kind id) _
          λ _ _.
            dispatch_frame-Inv env c kind flags id len payload v
              (expected_cases kind id c.continuation_buf e)
