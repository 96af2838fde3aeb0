-- ===== src/Connection/Invariant/Routes.antt =====
-- Routes are those of the services there are.
use pajamax.Prelude.{
  sym, ℕ, zero, suc, ◌+◌, ◌<◌, ◌≡◌, arith, Option-cases, inl, inr, Option, some, List, [], ◌∷◌,
  Bytes, length, All, All-append, get_elem?,
}
use pajamax.Outcome.{ok, OnOk, OnOk-eq, >>=-eq-ok}
use pajamax.Hpack.Decoder.{PathKind, cached, new_path, Decoder, find_path_and_encoding}
use pajamax.Connection.Process.State.{Env, Conn}
use pajamax.Connection.Process.{find_route, cached_route, route_path, resolve_route}
use pajamax.Connection.Invariant.{Routed}
use pajamax.Hpack.Decoder.Text.{GrpcEncoding}

-- Routes are those of the services there are.
find_route-Routed :
    (services : List (Bytes → Option ℕ)) (i : ℕ) (path : Bytes) (r : ℕ × ℕ)
    → find_route services i path ≡ some r
    → r.0 < i + length services
unfolding find_route
find_route-Routed [] i path r e = cc
find_route-Routed (route ∷ services) i path r e = elim (Option-cases (route path)) [
  | inl x ↦ ground (arith, find_route-Routed services (i + 1) path r)
  | inr (d, x) ↦ ground arith
]

get_elem?-All :
    (n i : ℕ) (cache : List (ℕ × ℕ)) (r : ℕ × ℕ)
    → All (Routed n) cache
    → get_elem? cache i ≡ some r
    → r.0 < n
get_elem?-All n i [] r a e = cc
get_elem?-All n zero (x ∷ cache) r a e = ground arith
get_elem?-All n (suc i) (x ∷ cache) r a e = get_elem?-All n i cache r a.1 e

pub route_path-Routed :
    (services : List (Bytes → Option ℕ)) (cache : List (ℕ × ℕ)) (path : PathKind)
    → All (Routed (length services)) cache
    → OnOk
        (λ t. All (Routed (length services)) t.0 × (t.1.0 < length services))
        (route_path services cache path)
unfolding route_path cached_route
route_path-Routed services cache (cached i) a = elim (Option-cases (get_elem? cache i)) [
  | inl e ↦ rw (e, OnOk) tt
  | inr (r, e) ↦ rw (e, OnOk) (a, get_elem?-All (length services) i cache r a e)
]
route_path-Routed services cache (new_path path) a =
    elim (Option-cases (find_route services 0 path)) [
      | inl e ↦ rw (e, OnOk) tt
      | inr (r, e) ↦
          let lt : r.0 < length services = omega (arith, find_route-Routed services 0 path r e) in
          rw (e, OnOk) (All-append (Routed (length services)) cache (r ∷ []) a (lt, tt), lt)
    ]

-- What `resolve_route` changes: the decoder, and the cache, which stays routed.
pub resolve_route_inv :
    (env : Env) (c : Conn) (buf : Bytes) (c' : Conn) (r : ℕ × ℕ) (enc : GrpcEncoding)
    → All (Routed (length env.services)) c.route_cache
    → resolve_route env c buf ≡ ok (c', r, enc)
    → (d : Decoder) × (cache : List (ℕ × ℕ)) × (c'
        ≡ record c { hpack_decoder = d; route_cache = cache })
      × All (Routed (length env.services)) cache
      × (r.0 < length env.services)
unfolding resolve_route
resolve_route_inv env c buf c' r enc a e =
    let ((d, result), e₁, _) = >>=-eq-ok (find_path_and_encoding buf c.hpack_decoder) _ (sym e) in
    let ((cache, r'), e₃, e₂) =
      >>=-eq-ok (route_path env.services c.route_cache result.path) _ (sym e₁) in
    let (routed, served) =
      OnOk-eq (λ t. All (Routed (length env.services)) t.0 × (t.1.0 < length env.services)) _ _
        (route_path-Routed env.services c.route_cache result.path a) e₂ in
    (d, cache, ground arith, routed, ground arith)
