-- ===== src/Bkey/Format/Build/Keys.antt =====
-- The format that is built from keys packs each of them.
use subvol.Prelude.{◌^◌, ◌<◌, ◌≡◌, refl, List, [], ◌∷◌, min, max, arith}
use subvol.Bkey.Key.{Bkey, IsBkey}
use subvol.Bkey.Format.{
  Field, inode, offset, snapshot, size, version_hi, version_lo, all_fields, BkeyFormat,
  unpacked_bits,
}
use subvol.Bkey.Format.Packed.{bkey_field_values}
use subvol.Bkey.Format.Stream.Fields.{AllFit}
use subvol.Bkey.Format.RoundTrip.Header.{IsFormat}
use subvol.Bkey.Format.Build.{
  BkeyFormatState, bkey_format_init, bkey_format_add, bkey_format_add_key, bkey_format_done,
}
use subvol.Bkey.Format.Build.Fits.{IsState, Covers, done-IsFormat, done-fits}

-- The keys are added one by one, the first one last.
abbrev pub add_all : List Bkey → BkeyFormatState
add_all [] = bkey_format_init
add_all (k ∷ ks) = bkey_format_add_key (add_all ks) k

abbrev pub EachIsBkey : List Bkey → Type 0
EachIsBkey [] = Unit
EachIsBkey (k ∷ ks) = IsBkey k × EachIsBkey ks

abbrev pub EachFits : BkeyFormat → List Bkey → Type 0
EachFits f [] = Unit
EachFits f (k ∷ ks) = AllFit f (bkey_field_values k) all_fields × EachFits f ks

add_key-min :
    (state : BkeyFormatState) (k : Bkey) (field : Field)
    → (bkey_format_add_key state k).field_min field
      ≡ min (state.field_min field) (bkey_field_values k field)
unfolding bkey_format_add_key bkey_format_add
add_key-min state k inode = refl
add_key-min state k offset = refl
add_key-min state k snapshot = refl
add_key-min state k size = refl
add_key-min state k version_hi = refl
add_key-min state k version_lo = refl

add_key-max :
    (state : BkeyFormatState) (k : Bkey) (field : Field)
    → (bkey_format_add_key state k).field_max field
      ≡ max (state.field_max field) (bkey_field_values k field)
unfolding bkey_format_add_key bkey_format_add
add_key-max state k inode = refl
add_key-max state k offset = refl
add_key-max state k snapshot = refl
add_key-max state k size = refl
add_key-max state k version_hi = refl
add_key-max state k version_lo = refl

values-fit :
    (k : Bkey) → IsBkey k → (field : Field) → bkey_field_values k field < 2 ^ unpacked_bits field
unfolding bkey_field_values
values-fit k h inode = h.p_fits.inode_fits
values-fit k h offset = h.p_fits.offset_fits
values-fit k h snapshot = h.p_fits.snapshot_fits
values-fit k h size = h.size_fits
values-fit k h version_hi = h.hi_fits
values-fit k h version_lo = h.lo_fits

add_all-IsState : (ks : List Bkey) → EachIsBkey ks → IsState (add_all ks)
unfolding bkey_format_init
add_all-IsState [] h inode = omega arith
add_all-IsState [] h offset = omega arith
add_all-IsState [] h snapshot = omega arith
add_all-IsState [] h size = omega arith
add_all-IsState [] h version_hi = omega arith
add_all-IsState [] h version_lo = omega arith
add_all-IsState (k ∷ ks) (h, hs) field =
    rw (add_key-max (add_all ks) k field)
      (omega (arith, add_all-IsState ks hs field, values-fit k h field))

-- Each key of `ks` is covered by the state of `more` keys over them.
EachCovered : BkeyFormatState → List Bkey → Type 0
EachCovered state [] = Unit
EachCovered state (k ∷ ks) = Covers state (bkey_field_values k) × EachCovered state ks

wider :
    (state : BkeyFormatState) (k : Bkey) (ks : List Bkey)
    → EachCovered state ks
    → EachCovered (bkey_format_add_key state k) ks
unfolding EachCovered
wider state k [] h = tt
wider state k (k' ∷ ks) (h, hs) = (
  (λ field. (
    omega (arith, h field, add_key-min state k field),
    omega (arith, h field, add_key-max state k field),
  )),
  wider state k ks hs,
)

all_covered : (ks : List Bkey) → EachCovered (add_all ks) ks
unfolding EachCovered
all_covered [] = tt
all_covered (k ∷ ks) = (
  (λ field. (
    omega (arith, add_key-min (add_all ks) k field),
    omega (arith, add_key-max (add_all ks) k field),
  )),
  wider (add_all ks) k ks (all_covered ks),
)

each_fits :
    (state : BkeyFormatState) (ks : List Bkey)
    → IsState state
    → EachCovered state ks
    → EachFits (bkey_format_done state) ks
unfolding EachCovered
each_fits state [] hs h = tt
each_fits state (k ∷ ks) hs (h, rest) =
    (done-fits state hs (bkey_field_values k) h, each_fits state ks hs rest)

-- The format that is built from a list of keys is well formed, and each field of each key fits
-- it: so each of these keys can be packed.
pub bkey_format_done-fits :
    (ks : List Bkey)
    → EachIsBkey ks
    → IsFormat (bkey_format_done (add_all ks)) × EachFits (bkey_format_done (add_all ks)) ks
bkey_format_done-fits ks h =
    let hs = add_all-IsState ks h in
    (done-IsFormat (add_all ks) hs, each_fits (add_all ks) ks hs (all_covered ks))
