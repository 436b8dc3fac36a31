-- ===== src/Decode/Source/Offsets.antt =====
-- native/src/jflac_jni.c: offsets in the FLAC stream are positions in the channel less the base.
use java_kotlin_flac.Prelude.{
  ℕ, true, false, ◌+◌, ◌-◌, ◌≤◌, ◌<◌, ◌≡◌, refl, arith, llong_max, if_false, if◌then◌else◌, not,
  ◌||◌, ltb, ap, ◌∙◌,
}
use java_kotlin_flac.Prelude.Int.{ℤ, pos, to_u64, ◌+ℤ◌, ◌-ℤ◌, ltb_ℤ}
use java_kotlin_flac.Jni.{Java, Vm, call, exception_check, returned}
use java_kotlin_flac.Flac.{SeekStatus, OffsetStatus}
use java_kotlin_flac.Decode.Context.{Source}
use java_kotlin_flac.Decode.Source.{decode_channel_seek_callback, decode_channel_tell_callback}

-- A channel whose methods were resolved, with a base that `position()` gave.
pub record IsOpen (base : ℕ) (s : Source) : Type 0 where
  pub channel : s.seekable_channel ≡ true
  pub position : s.channel_position ≡ true
  pub seek : s.channel_seek ≡ true
  pub size : s.channel_size ≡ true
  pub base_eq : s.channel_base_offset ≡ pos base
  pub base_le : base ≤ llong_max

module _ {W : Type 0} (java : Java W) (base : ℕ) (s : Source) (o : IsOpen base s) (vm : Vm W) where
  within_range :
      (offset : ℕ)
      → base + offset ≤ llong_max
      → (not s.seekable_channel
          || not s.channel_seek
          || ltb (to_u64 (pos llong_max -ℤ s.channel_base_offset)) offset)
        ≡ false
  within_range offset h = ground (arith, o.channel, o.seek, o.base_eq)

  sum_position : (offset : ℕ) → s.channel_base_offset +ℤ pos offset ≡ pos (base + offset)
  sum_position offset = ground (arith, o.base_eq)

  abbrev pub sought : ℤ → SeekStatus × Vm W
  sought z =
      let vm' = (call tt (java.channel_seek z) vm).1 in
      (if exception_check vm' then SeekStatus.error else SeekStatus.ok, vm')

  refused_offset :
      (offset : ℕ)
      → llong_max < base + offset
      → decode_channel_seek_callback java offset s vm ≡ (SeekStatus.error, vm)
  unfolding decode_channel_seek_callback
  refused_offset offset h = ground (arith, o.base_eq, o.base_le)

  sought_offset :
      (offset : ℕ)
      → base + offset ≤ llong_max
      → decode_channel_seek_callback java offset s vm ≡ sought (pos (base + offset))
  unfolding decode_channel_seek_callback
  sought_offset offset h =
      if_false (λ r. r ≡ sought (pos (base + offset)))
        {b = not s.seekable_channel
          || not s.channel_seek
          || ltb (to_u64 (pos llong_max -ℤ s.channel_base_offset)) offset}
        _ (within_range offset h) (ap sought (sum_position offset))

  -- On a channel whose base is not negative, an offset whose position `base + offset` would exceed the
  -- largest `jlong` is refused, and Java is not called; any other offset is sought at that position,
  -- and the seek has failed if an exception is pending after it.
  pub decode_channel_seek_callback_lem :
      (offset : ℕ)
      → (llong_max < base + offset
          → decode_channel_seek_callback java offset s vm ≡ (SeekStatus.error, vm))
        × (base + offset ≤ llong_max
            → decode_channel_seek_callback java offset s vm ≡ sought (pos (base + offset)))
  decode_channel_seek_callback_lem offset = (refused_offset offset, sought_offset offset)

  abbrev told : ℤ → OffsetStatus × Vm W
  told z = (
    OffsetStatus.offset (to_u64 (z -ℤ s.channel_base_offset)),
    (call (pos 0) java.channel_position vm).1,
  )

  -- A position that Java reports at or behind the base is an offset from the base.
  pub decode_channel_tell_callback_lem :
      (p : ℕ)
      → base ≤ p
      → p ≤ llong_max
      → (call (pos 0) java.channel_position vm).0 ≡ pos p
      → exception_check (call (pos 0) java.channel_position vm).1 ≡ false
      → decode_channel_tell_callback java true s vm
        ≡ (OffsetStatus.offset (p - base), (call (pos 0) java.channel_position vm).1)
  unfolding decode_channel_tell_callback
  decode_channel_tell_callback_lem p low high e quiet =
      if_false
        (λ r. r ≡ (OffsetStatus.offset (p - base), (call (pos 0) java.channel_position vm).1))
        {b = not s.seekable_channel || not s.channel_position || false} _
        (ground (arith, o.channel, o.position))
        (if_false
          (λ r. r ≡ (OffsetStatus.offset (p - base), (call (pos 0) java.channel_position vm).1))
          {b = exception_check (call (pos 0) java.channel_position vm).1
            || ltb_ℤ (call (pos 0) java.channel_position vm).0 s.channel_base_offset}
          _ (rw (quiet, e, o.base_eq) (ground arith))
          (ap (λ t. (OffsetStatus.offset t, (call (pos 0) java.channel_position vm).1))
            (rw (e, o.base_eq) (ground arith))))

module _ {W : Type 0} (java : Java W) (base : ℕ) (s : Source) (o : IsOpen base s) (vm : Vm W) where
  -- On a channel whose base is not negative, for an offset whose position fits a `jlong`: where Java's
  -- `position()` answers what `position(long)` was last given, and neither throws, the tell callback
  -- reports the very offset that the seek callback was given.
  pub decode_channel_tell_callback-seek :
      (offset : ℕ)
      → base + offset ≤ llong_max
      → exception_check vm ≡ false
      → (w w' : W) → java.channel_seek (pos (base + offset)) vm.world ≡ (w, returned tt)
      → java.channel_position w ≡ (w', returned (pos (base + offset)))
      → (decode_channel_seek_callback java offset s vm ≡ (SeekStatus.ok, record vm { world = w }))
        × (decode_channel_tell_callback java true s (record vm { world = w })
            ≡ (OffsetStatus.offset offset, record vm { world = w' }))
  decode_channel_tell_callback-seek offset fits quiet w w' sought_at told_at = (
    (decode_channel_seek_callback_lem java base s o vm offset).1 fits ∙ rw (sought_at, quiet) refl,
    decode_channel_tell_callback_lem java base s o (record vm { world = w }) (base + offset)
          (omega arith) fits (rw told_at refl) (rw (told_at, quiet) refl)
        ∙ rw told_at (ap (λ t. (OffsetStatus.offset t, record vm { world = w' })) (omega arith)),
  )
