-- ===== src/Decode/OneShot/Guides.antt =====
-- native/src/jflac_jni.c: the invariants of a decode of a range and of a decode up to the end of a stream.
use java_kotlin_flac.Prelude.{
  ℕ, Bool, false, Option, some, List, ◌≡◌, refl, ◌∙◌, ap, ◌<◌, ◌≤◌, ◌+◌, subst, arith, not, if_true,
  if_false,
}
use java_kotlin_flac.Jni.{Java, Event, complete}
use java_kotlin_flac.Flac.{Flac}
use java_kotlin_flac.Decode.Write.{State}
use java_kotlin_flac.Decode.Write.Crop.{frames_heard, frames_heard-append}
use java_kotlin_flac.Decode.Callbacks.Balance.{IsKept, run-IsKept}
use java_kotlin_flac.Decode.Callbacks.Bounded.{IsWord, IsBounded, untouched, run-IsBounded}
use java_kotlin_flac.Decode.Read.Continuity.{Progress}
use java_kotlin_flac.Decode.Process.{process_decode_stream, process_whole}
use java_kotlin_flac.Decode.Process.Balance.{IsKeptWhere, process_decode_stream-IsKept}
use java_kotlin_flac.Decode.Session.Outcomes.{process_decode_stream-RangeEnded}
use java_kotlin_flac.Decode.OneShot.Guide.{Guide}

-- Blocks have a `uint32_t` number of samples in every call of libFLAC.
pub record HasWords {D : Type 0} (flac : Flac D) : Type 0 where
  pub process_single : (d : D) → IsWord (flac.process_single d)
  pub seek_absolute : (n : ℕ) (d : D) → IsWord (flac.seek_absolute n d)
  pub init_file : (path : List ℕ) (d : D) → IsWord (flac.init_file path d)
  pub init_ogg_file : (path : List ℕ) (d : D) → IsWord (flac.init_ogg_file path d)
  pub init_stream : (seekable : Bool) (d : D) → IsWord (flac.init_stream seekable d)
  pub init_ogg_stream : (seekable : Bool) (d : D) → IsWord (flac.init_ogg_stream seekable d)
  pub process_until_end_of_metadata : (d : D) → IsWord (flac.process_until_end_of_metadata d)
  pub finish : (d : D) → IsWord (flac.finish d)

-- The consumer has been given no more than `top` frames.
abbrev pub AtMost : ℕ → List Event → Type 0
AtMost top heard = frames_heard heard ≤ top

-- A decode of a range, by a decoder that has less than `fuel` left to decode.
abbrev pub range_guide :
    {W D : Type 0} (java : Java W) (flac : Flac D) (base limit : ℕ) (left : D → ℕ) (fuel : ℕ)
    → HasWords flac
    → Progress flac left
    → ((d : D) → left d < fuel)
    → Guide java flac fuel
range_guide java flac base limit left fuel words progress enough = record {
  Inv = IsBounded base limit;
  Fits = AtMost (base + limit);
  fits = λ s b. omega (arith, b.metered.heard_le, b.metered.limit_eq);
  fits_complete = λ heard h. omega (arith, frames_heard-append heard complete, h);
  machine = λ s vm b same still.
      untouched java s _ b refl refl (record { frames = ap frames_heard same; still = still });
  seeks =
      λ n d s. run-IsBounded java base limit (flac.seek_absolute n d) s (words.seek_absolute n d);
  describes = λ d s.
      run-IsBounded java base limit (flac.process_until_end_of_metadata d) s
        (words.process_until_end_of_metadata d);
  finishes = λ d s. run-IsBounded java base limit (flac.finish d) s (words.finish d);
  processes = λ d s b.
      let (r, e, ended) =
        process_decode_stream-RangeEnded java flac base limit left fuel words.process_single
          words.seek_absolute progress enough d s b in
      (r, e, ended.bounded);
}

-- A decode that is not bounded, of a single stream.
pub record IsWhole {W : Type 0} (s : State W) : Type 0 where
  pub unlimited : s.context.range.range_limited ≡ false
  pub unchained : s.context.stream.decode_chained_ogg ≡ false

pub kept-IsWhole : {W : Type 0} (s t : State W) → IsKept s t → IsWhole s → IsWhole t
kept-IsWhole s t k w = record {
  unlimited = k.same_limited ∙ w.unlimited;
  unchained = k.same_chained ∙ w.unchained;
}

abbrev pub Anything : List Event → Type 0
Anything heard = Unit {0}

-- Such a decode needs no fuel.
pub process_decode_stream-IsWhole :
    {W D : Type 0} (java : Java W) (flac : Flac D) (fuel : ℕ) (d : D) (s : State W)
    → IsWhole s
    → process_decode_stream java flac fuel d s ≡ some (process_whole java flac d s)
unfolding process_decode_stream
process_decode_stream-IsWhole {D = D} java flac fuel d s w =
    let P = λ (o : Option (Bool × D × State _)). o ≡ some (process_whole java flac d s) in
    if_true P {b = not s.context.range.range_limited} _ (ground (arith, w.unlimited))
      (if_false P {b = s.context.stream.decode_chained_ogg} _ w.unchained refl)

pub process_whole-IsWhole :
    {W D : Type 0} (java : Java W) (flac : Flac D) (fuel : ℕ) (d : D) (s : State W)
    → IsWhole s
    → IsWhole (process_whole java flac d s).2
process_whole-IsWhole java flac fuel d s w =
    kept-IsWhole s _
      (subst (IsKeptWhere s) (process_decode_stream-IsWhole java flac fuel d s w)
        (process_decode_stream-IsKept java flac fuel d s))
      w

abbrev pub whole_guide :
    {W D : Type 0} (java : Java W) (flac : Flac D) (fuel : ℕ) → Guide java flac fuel
whole_guide java flac fuel = record {
  Inv = IsWhole;
  Fits = Anything;
  fits = λ s w. tt;
  fits_complete = λ heard h. tt;
  machine = λ s vm w same still. record { unlimited = w.unlimited; unchained = w.unchained };
  seeks = λ n d s. kept-IsWhole s _ (run-IsKept java (flac.seek_absolute n d) s);
  describes = λ d s. kept-IsWhole s _ (run-IsKept java (flac.process_until_end_of_metadata d) s);
  finishes = λ d s. kept-IsWhole s _ (run-IsKept java (flac.finish d) s);
  processes = λ d s w. (
    process_whole java flac d s,
    process_decode_stream-IsWhole java flac fuel d s w,
    process_whole-IsWhole java flac fuel d s w,
  );
}
