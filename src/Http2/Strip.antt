-- ===== src/Http2/Strip.antt =====
-- Padding and priority: what is stripped is what was added.
use pajamax.Prelude.{
  ℕ, ◌-◌, ◌<◌, ◌≡◌, ◌≢◌, refl, ap, arith, true, false, [], ◌∷◌, ◌++◌, Bytes, length, take, drop,
  length-append, length-drop, length-take, take-append_self, drop-append_self, take-append-drop,
}
use pajamax.Http2.{
  HeadFlags, is_padded, is_priority, strip_data_padding, skip_priority, strip_headers,
}
use pajamax.Outcome.{ok}

-- Of a padded payload that has some content, its length byte and its padding are removed, and the
-- content is what is left.
pub strip_data_padding_padded :
    (flags : HeadFlags) (content padding : Bytes)
    → is_padded flags ≡ true
    → content ≢ []
    → strip_data_padding flags (length padding ∷ (content ++ padding)) ≡ ok content
unfolding strip_data_padding
strip_data_padding_padded flags [] padding p h = absurd (h refl)
strip_data_padding_padded flags (c ∷ content) padding p h =
    rw p (ground (arith, length-append content padding, take_content))
  where
    take_content :
        take (length (c ∷ content ++ padding) - length padding) (c ∷ content ++ padding)
        ≡ c ∷ content
    take_content =
        let e : length (c ∷ content ++ padding) - length padding ≡ length (c ∷ content) =
          omega (arith, length-append content padding) in
        rw e (take-append_self (c ∷ content) padding)

strip_accepts :
    (flags : HeadFlags) (pad : ℕ) (rest out : Bytes)
    → is_padded flags ≡ true
    → strip_data_padding flags (pad ∷ rest) ≡ ok out
    → (pad < length rest) × (out ≡ take (length rest - pad) rest)
unfolding strip_data_padding
strip_accepts flags pad rest out p e = ground arith

-- Whatever is accepted of a padded payload has that form: content that is not empty, between the
-- length byte and as many bytes of padding as it says.
pub strip_data_padding_sound :
    (flags : HeadFlags) (buf out : Bytes)
    → is_padded flags ≡ true
    → strip_data_padding flags buf ≡ ok out
    → (padding : Bytes) × (buf ≡ length padding ∷ (out ++ padding)) × (out ≢ [])
unfolding strip_data_padding
strip_data_padding_sound flags [] out p e = ground arith
strip_data_padding_sound flags (pad ∷ rest) out p e =
    let (short, taken) = strip_accepts flags pad rest out p e in
    let k : ℕ = length rest - pad in
    let back : Bytes = drop k rest in
    let size : length back ≡ pad = omega (arith, length-drop k rest) in
    let whole : out ++ back ≡ rest = rw taken (take-append-drop k rest) in
    (
      back,
      rw (size, whole),
      λ h. absurd (omega (arith, ap length h, ap length taken, length-take k rest (omega arith))),
    )

-- Without the flags the headers are the payload.
pub strip_headers_plain :
    (flags : HeadFlags) (buf : Bytes)
    → is_padded flags ≡ false
    → is_priority flags ≡ false
    → strip_headers flags buf ≡ ok buf
unfolding strip_headers
strip_headers_plain flags [] p q = ground arith
strip_headers_plain flags (b ∷ buf) p q = ground arith

-- With both flags set, `strip_headers` removes the padding, its length byte and the five bytes of
-- priority, and leaves the headers.
pub strip_headers_priority :
    (flags : HeadFlags) (priority content padding : Bytes)
    → is_padded flags ≡ true
    → is_priority flags ≡ true
    → length priority ≡ 5
    → strip_headers flags (length padding ∷ ((priority ++ content) ++ padding)) ≡ ok content
unfolding strip_headers skip_priority
strip_headers_priority flags priority content padding p q h =
    rw (strip_data_padding_padded flags (priority ++ content) padding p filled, q)
      (ground (arith, length-append priority content, dropped))
  where
    filled : priority ++ content ≢ []
    filled e = absurd (omega (arith, ap length e, length-append priority content))

    dropped : drop 5 (priority ++ content) ≡ content
    dropped = rw (← h) (drop-append_self priority content)
