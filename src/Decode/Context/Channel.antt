-- ===== src/Decode/Context/Channel.antt =====
-- native/src/jflac_jni.c: the reference that `prepare_decode_seekable_channel` takes.
use java_kotlin_flac.Prelude.{
  Bool, true, false, Option, none, some, ◌≡◌, refl, ◌∙◌, ap, ◌+◌, ◌-◌, ◌&&◌, not, if_cases, arith,
}
use java_kotlin_flac.Prelude.Int.{pos, ltb_ℤ}
use java_kotlin_flac.Jni.{
  Java, Vm, Holdings, exception_check, call, throw_decode_exception,
  throw_illegal_argument_exception,
}
use java_kotlin_flac.Decode.Source.Machine.{call-IsQuieter}
use java_kotlin_flac.Decode.Context.{
  Source, prepare_decode_seekable_channel, clear_decode_seekable_channel, add_global_ref,
}

abbrev pub with_reference : Holdings → Holdings
with_reference held = record held { global_refs = held.global_refs + 1 }

pub without_reference :
    (held : Holdings) → record held { global_refs = held.global_refs + 1 - 1 } ≡ held
without_reference held = ap (λ n. record held { global_refs = n }) (omega arith)

-- The class of a channel has the four methods.
abbrev pub all_methods : Option (Bool × Bool × Bool × Bool)
all_methods = some (true, true, true, true)

-- A source that holds its channel exactly if it was prepared.
pub record IsPrepared {W : Type 0} (vm : Vm W) (r : Bool × Source × Vm W) : Type 0 where
  pub channel : r.1.seekable_channel ≡ r.0
  pub taken : r.0 ≡ true → r.2.holdings ≡ with_reference vm.holdings
  pub refused : r.0 ≡ false → r.2.holdings ≡ vm.holdings
  pub still : exception_check r.2 ≡ false → exception_check vm ≡ false

module _ {W : Type 0} (java : Java W) where
  pub prepare_decode_seekable_channel-IsPrepared :
      (channel : Bool) (class : Option (Bool × Bool × Bool × Bool)) (s : Source) (vm : Vm W)
      → s.seekable_channel ≡ false
      → IsPrepared vm (prepare_decode_seekable_channel java channel class s vm)
  unfolding prepare_decode_seekable_channel add_global_ref clear_decode_seekable_channel
      throw_illegal_argument_exception throw_decode_exception
  prepare_decode_seekable_channel-IsPrepared false class s vm none_yet = record {
    channel = none_yet;
    taken = λ e. absurd cc;
    refused = λ _. refl;
    still = λ e. absurd cc;
  }
  prepare_decode_seekable_channel-IsPrepared true none s vm none_yet = record {
    channel = none_yet;
    taken = λ e. absurd cc;
    refused = λ _. refl;
    still = λ h. h;
  }
  prepare_decode_seekable_channel-IsPrepared true (some (r, p, k, z)) s vm none_yet =
      let s₁ = record s {
        channel_read = r;
        channel_position = p;
        channel_seek = k;
        channel_size = z;
      } in
      let P = IsPrepared vm in
      let a = add_global_ref java vm in
      let b = call (pos 0) java.channel_position a.1 in
      let q = call-IsQuieter (pos 0) java.channel_position a.1 in
      if_cases P {b = not (r && p && k && z)}
        (λ _. record {
          channel = none_yet;
          taken = λ e. absurd cc;
          refused = λ _. refl;
          still = λ h. h;
        })
        λ _.
          if_cases P {b = not a.0}
            (λ failed. record {
              channel = refl;
              taken = λ e. absurd cc;
              refused = λ _. ground (arith, failed);
              still = λ h. ground (arith, h);
            })
            λ made.
              let held : b.1.holdings ≡ with_reference vm.holdings =
                q.same_holdings ∙ ground (arith, made) in
              let calm : exception_check b.1 ≡ false → exception_check vm ≡ false =
                λ h. ground (arith, q.still h) in
              let back : record b.1.holdings { global_refs = b.1.holdings.global_refs - 1 }
                  ≡ vm.holdings =
                ap {A = Holdings} (λ h. record h { global_refs = h.global_refs - 1 }) held
                ∙ without_reference vm.holdings in
              if_cases P {b = exception_check b.1}
                (λ bad. record {
                  channel = refl;
                  taken = λ e. absurd cc;
                  refused = λ _. back;
                  still = λ h. absurd cc;
                })
                λ _.
                  if_cases P {b = ltb_ℤ b.0 (pos 0)}
                    (λ _. record {
                      channel = refl;
                      taken = λ e. absurd cc;
                      refused = λ _. back;
                      still = λ h. absurd cc;
                    })
                    (λ _. record {
                      channel = refl;
                      taken = λ _. held;
                      refused = λ e. absurd cc;
                      still = calm;
                    })

  -- A channel whose class has the four methods is refused only with an exception, if a global reference
  -- can be made.
  pub prepare_decode_seekable_channel-raises :
      (s : Source) (vm : Vm W)
      → ((w : W) → (java.new_global_ref w).1 ≡ true)
      → let r = prepare_decode_seekable_channel java true all_methods s vm in
        (r.0 ≡ false → exception_check r.2 ≡ true) × (r.2.heard ≡ vm.heard)
  unfolding prepare_decode_seekable_channel add_global_ref clear_decode_seekable_channel
      throw_decode_exception
  prepare_decode_seekable_channel-raises s vm refs =
      let a = add_global_ref java vm in
      let b = call (pos 0) java.channel_position a.1 in
      let q = call-IsQuieter (pos 0) java.channel_position a.1 in
      let made = refs vm.world in
      let heard : b.1.heard ≡ vm.heard = q.heard ∙ ground (arith, made) in
      let P = λ (r : Bool × Source × Vm W).
        (r.0 ≡ false → exception_check r.2 ≡ true) × (r.2.heard ≡ vm.heard) in
      if_cases P {b = not a.0} (λ failed. absurd cc)
        λ _.
          if_cases P {b = exception_check b.1} (λ bad. ((λ _. bad), heard))
            λ _.
              if_cases P {b = ltb_ℤ b.0 (pos 0)} (λ _. ((λ _. refl), heard))
                (λ _. ((λ e. absurd cc), heard))
