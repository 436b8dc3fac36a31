-- ===== src/Decode/Open/Release.antt =====
-- native/src/jflac_jni.c: `releaseDecoder`, and the release of a session that has just been opened.
use java_kotlin_flac.Prelude.{
  ℕ, true, Option, subst, sym, none, some, [], ◌∷◌, ◌≡◌, refl, ◌∙◌, ap, if_true, arith,
}
use java_kotlin_flac.Prelude.Int.{ℤ, pos, ltb_ℤ, eqb_ℤ, eqb_ℤ_refl}
use java_kotlin_flac.Jni.{Java, Vm, Holdings}
use java_kotlin_flac.Flac.{Flac}
use java_kotlin_flac.Sessions.{
  Session, Entry, Registry, find_entry, unlink_entry, update, remove_decode_session,
  destroy_decode_session,
}
use java_kotlin_flac.Sessions.Invariant.{update_self}
use java_kotlin_flac.Sessions.Outcomes.{with_new, new_session, remove_decode_session-found}
use java_kotlin_flac.Decode.Context.{DecodeContext}
use java_kotlin_flac.Decode.Open.{Opened, release_session}
use java_kotlin_flac.Decode.Open.Balance.{IsRegistered}

module _ {W D : Type 0} (java : Java W) (flac : Flac D) where
  -- `destroy_decode_session` of the session at `p`.
  destroy_session :
      ℕ
      → Option (Session (D × DecodeContext))
      → Registry (D × DecodeContext)
      → Vm W
      → Registry (D × DecodeContext) × Vm W
  unfolding release_session destroy_decode_session
  destroy_session p none r vm = (r, vm)
  destroy_session p (some s) r vm = (
    destroy_decode_session p r,
    elim s.decoder [
      | none ↦ vm
      | some (d, c) ↦
          (release_session java flac (some d) (record { vm = vm; context = c; delivered = [] })).vm
    ],
  )

  destroy_removed :
      Option (Option ℕ × Registry (D × DecodeContext))
      → Vm W
      → Option (Registry (D × DecodeContext) × Vm W)
  unfolding destroy_session
  destroy_removed none vm = none
  destroy_removed (some (none, r)) vm = some (r, vm)
  destroy_removed (some (some p, r)) vm = some (destroy_session p (r.heap p) r vm)

  unfoldable pub release_decoder :
      ℤ → Registry (D × DecodeContext) → Vm W → Option (Registry (D × DecodeContext) × Vm W)
  unfolding destroy_removed remove_decode_session
  release_decoder handle r vm = destroy_removed (remove_decode_session handle r) vm

module _ {W D : Type 0} (java : Java W) (flac : Flac D) where
  -- The handle 0 is not in the registry.
  pub release_decoder-zero :
      (r : Registry (D × DecodeContext)) (vm : Vm W)
      → release_decoder java flac (pos 0) r vm ≡ some (r, vm)
  unfolding release_decoder destroy_removed remove_decode_session
  release_decoder-zero r vm = refl

-- What a release leaves: the entries of the other sessions, the heap without the session at `p`, and
-- `held`.
pub record IsGivenBack {W D : Type 0} (r : Registry (D × DecodeContext)) (held : Holdings) (p : ℕ)
    (o : Option (Registry (D × DecodeContext) × Vm W)) : Type 0 where
  pub registry : Registry (D × DecodeContext)
  pub vm : Vm W
  pub returns : o ≡ some (registry, vm)
  pub same_entries : registry.entries ≡ r.entries
  pub same_heap : (q : ℕ) → registry.heap q ≡ update r.heap p none q
  pub same_holdings : vm.holdings ≡ held

module _ {W D : Type 0} (java : Java W) (flac : Flac D) (r : Registry (D × DecodeContext))
    (h next : ℤ) (p : ℕ) (x : D × DecodeContext) where
  abbrev entry : Entry
  entry = record { handle = h; session = p }

  new_found : find_entry h (entry ∷ r.entries) ≡ some entry
  unfolding find_entry
  new_found =
      if_true (λ o. o ≡ some entry) {b = eqb_ℤ h h} (find_entry h r.entries) (eqb_ℤ_refl h) refl

  new_unlinked : unlink_entry h (entry ∷ r.entries) ≡ r.entries
  unfolding unlink_entry
  new_unlinked =
      if_true (λ es. es ≡ r.entries) {b = eqb_ℤ h h} (entry ∷ unlink_entry h r.entries)
        (eqb_ℤ_refl h) refl

  release_new :
      (held : Holdings) (vm : Vm W)
      → ltb_ℤ (pos 0) h ≡ true
      → (release_session java flac
          (some x.0)
          (record { vm = vm; context = x.1; delivered = [] })).vm.holdings
        ≡ held
      → IsGivenBack r held p (release_decoder java flac h (with_new r p x h next) vm)
  unfolding release_decoder destroy_removed destroy_session destroy_decode_session
  release_new held vm positive back =
      let r₁ = with_new r p x h next in
      let s₁ : Session (D × DecodeContext) = record (new_session r x h) { released = true } in
      let r₂ : Registry (D × DecodeContext) = record r₁ {
        entries = unlink_entry h r₁.entries;
        heap = update r₁.heap p (some s₁);
      } in
      let removed : remove_decode_session h r₁ ≡ some (some p, r₂) =
        remove_decode_session-found r₁ h entry (new_session r x h) positive new_found
          (update_self r.heap p (some (new_session r x h))) in
      record {
        registry = destroy_decode_session p r₂;
        vm =
            (release_session java flac (some x.0)
              (record { vm = vm; context = x.1; delivered = [] })).vm;
        returns =
            ap (λ o. destroy_removed java flac o vm) removed
            ∙ ap (λ o. some (destroy_session java flac p o r₂ vm))
                (update_self r₁.heap p (some s₁));
        same_entries = new_unlinked;
        same_heap = λ q. ground arith;
        same_holdings = back;
      }

module _ {W D : Type 0} (java : Java W) (flac : Flac D) (r : Registry (D × DecodeContext))
    (held needed : Holdings) (session : Option ℕ) where
  -- The release of a session that has been opened.
  pub release_decoder-IsGivenBack :
      (o : Opened W D) (g : IsRegistered java flac r held needed session o) (vm : Vm W)
      → vm.holdings ≡ needed
      → IsGivenBack r held g.address (release_decoder java flac o.0 o.1 vm)
  release_decoder-IsGivenBack o g vm e =
      subst (λ x. IsGivenBack r held g.address (release_decoder java flac o.0 x vm)) (sym g.added)
        (release_new java flac r o.0 g.next g.address g.decoder held vm g.fresh.positive
          (g.gives_back vm e))
