-- ===== src/Decode/Open/Restored.antt =====
-- native/src/jflac_jni.c: an opening followed by `releaseDecoder` of the handle that it returned.
use java_kotlin_flac.Prelude.{
  ℕ, suc, Bool, true, Option, none, some, List, ◌≡◌, refl, ◌∙◌, ap, sym, subst, ◌+◌, ◌≤◌, ◌<◌,
  length, llong_max, inl, inr,
}
use java_kotlin_flac.Prelude.Int.{ℤ, pos}
use java_kotlin_flac.Jni.{Java, Vm, Holdings}
use java_kotlin_flac.Flac.{Flac}
use java_kotlin_flac.Entry.{Loading}
use java_kotlin_flac.Sessions.{Registry}
use java_kotlin_flac.Sessions.Invariant.{update_cases}
use java_kotlin_flac.Decode.Context.{DecodeContext}
use java_kotlin_flac.Decode.Context.Channel.{all_methods, with_reference}
use java_kotlin_flac.Decode.Open.{Opened, open_decoder_file, open_decoder_channel}
use java_kotlin_flac.Decode.Open.Balance.{IsOpened, IsRefused}
use java_kotlin_flac.Decode.Open.Outcomes.{
  with_decoder, open_decoder_file-IsOpened, open_decoder_channel-IsOpened,
}
use java_kotlin_flac.Decode.Open.Release.{
  release_decoder, release_decoder-zero, release_decoder-IsGivenBack,
}

-- `releaseDecoder` of what an opening returned.
abbrev pub then_release :
    {W D : Type 0}
    → Java W
    → Flac D
    → Option (Opened W D)
    → Option (Registry (D × DecodeContext) × Vm W)
then_release java flac none = none
then_release java flac (some (handle, r, vm)) = release_decoder java flac handle r vm

-- All is as it was before the opening, but for the counter of the handles: the entries, every session,
-- and what the bridge holds.
pub record IsRestored {W D : Type 0} (r : Registry (D × DecodeContext)) (held : Holdings)
    (o : Option (Registry (D × DecodeContext) × Vm W)) : Type 0 where
  pub registry : Registry (D × DecodeContext)
  pub vm : Vm W
  pub returns : o ≡ some (registry, vm)
  pub same_entries : registry.entries ≡ r.entries
  pub same_heap : (q : ℕ) → registry.heap q ≡ r.heap q
  pub same_holdings : vm.holdings ≡ held

module _ {W D : Type 0} (java : Java W) (flac : Flac D) (r : Registry (D × DecodeContext))
    (held needed : Holdings) (session : Option ℕ)
    (free : (p : ℕ) → session ≡ some p → r.heap p ≡ none) where
  refused-IsRestored :
      (o : Opened W D) → IsRefused r held o → IsRestored r held (then_release java flac (some o))
  refused-IsRestored (h, r', vm) q = record {
    registry = r;
    vm = vm;
    returns =
        ap (λ z. release_decoder java flac z r' vm) q.no_handle
        ∙ release_decoder-zero java flac r' vm
        ∙ ap (λ x. some (x, vm)) q.same_registry;
    same_entries = refl;
    same_heap = λ p. refl;
    same_holdings = q.same_holdings;
  }

  opened-IsRestored :
      (o : Option (Opened W D))
      → IsOpened java flac r held needed session o
      → IsRestored r held (then_release java flac o)
  opened-IsRestored none k = absurd k
  opened-IsRestored (some o) (inl q) = refused-IsRestored o q
  opened-IsRestored (some o) (inr g) =
      let b = release_decoder-IsGivenBack java flac r held needed session o g o.2 g.holds in
      record {
        registry = b.registry;
        vm = b.vm;
        returns = b.returns;
        same_entries = b.same_entries;
        same_heap = λ q.
            b.same_heap q
            ∙ update_cases (λ x. x ≡ r.heap q) r.heap g.address none q
                (λ e. sym (subst (λ p. r.heap p ≡ none) e (free g.address g.there))) (λ _. refl);
        same_holdings = b.same_holdings;
      }

module _ {W D : Type 0} (java : Java W) (flac : Flac D) (loading : Loading) (session : Option ℕ)
    (created : Option D) (allocated : Bool) (r : Registry (D × DecodeContext)) (n : ℕ)
    (first : 0 < n) (next_eq : r.next_handle ≡ pos n)
    (bounded : n + suc (length r.entries) ≤ llong_max)
    (free : (p : ℕ) → session ≡ some p → r.heap p ≡ none) where
  -- `openDecoderFile` and then `releaseDecoder` of the handle that it returned, which is 0 where the
  -- opening failed: both return, the registry has the entries and the sessions that it had, and the bridge
  -- holds what it held. The handle counter is positive and does not reach the largest `jlong` in the next
  -- attempts, and a new session is allocated where there was none.
  pub release_decoder-open_decoder_file :
      (lookups : Bool) (path : Option (List ℕ)) (container : ℤ) (vm : Vm W)
      → IsRestored r vm.holdings (
          then_release java flac (
            open_decoder_file java flac loading
              (suc (length r.entries))
              session
              created
              allocated
              r
              lookups
              path
              container
              vm))
  release_decoder-open_decoder_file lookups path container vm =
      opened-IsRestored java flac r vm.holdings (with_decoder vm.holdings) session free _ (
        open_decoder_file-IsOpened java flac loading session created allocated r n first next_eq
          bounded lookups path container vm)

  -- The same of `openDecoderChannel`, for a channel whose class has the four methods, if a global reference
  -- can be made: the reference to the channel is given back, too.
  pub release_decoder-open_decoder_channel :
      (container : ℤ) (vm : Vm W)
      → ((w : W) → (java.new_global_ref w).1 ≡ true)
      → IsRestored r vm.holdings (
          then_release java flac (
            open_decoder_channel java flac loading
              (suc (length r.entries))
              session
              created
              allocated
              r
              (some all_methods)
              container
              vm))
  release_decoder-open_decoder_channel container vm refs =
      opened-IsRestored java flac r vm.holdings (with_reference (with_decoder vm.holdings)) session
        free _
        (open_decoder_channel-IsOpened java flac loading session created allocated r n first next_eq
          bounded container vm refs)
