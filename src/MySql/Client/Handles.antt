-- ===== src/MySql/Client/Handles.antt =====
-- Which handle the operations leave.
use project_moon.Base.{◌≡◌, ◌⊎◌, inl, inr, refl, sym, ap, Option, none, some, Bytes, arith}
use project_moon.Base.Calls.{failed, Result-cases}
use project_moon.MySql.Client.{ConnectionOptions, LibMySql, open_handle, connect, escape}

module _ {W Handle : Type 0} (lib : LibMySql W Handle) (options : ConnectionOptions) where
  -- What Escape comes back with is what mysql_real_escape_string makes of the text on the handle
  -- that it leaves; or there was no handle and Connect has failed, and it is the text itself,
  -- unescaped.
  pub escape_cases :
      (value text : Bytes) (s s' : Option Handle × W)
      → escape lib options value s ≡ (text, s')
      → ((handle : Handle) × (s'.0 ≡ some handle)
          × (text ≡ lib.mysql_real_escape_string handle value))
        ⊎ ((s.0 ≡ none)
            × (s'.0 ≡ none)
            × (text ≡ value)
            × (m : Bytes) × (connect lib options s ≡ (failed m, s')))
  unfolding escape connect
  escape_cases value text (some handle, w) s' h =
      inl (handle, ap (λ r. r.1.0) (sym h), ap (λ r. r.0) (sym h))
  escape_cases value text (none, w) s' h = elim (Result-cases (open_handle lib options (none, w))) [
    | inl (handle, w', e) ↦ inl (handle, ground (arith, h, e), ground (arith, h, e))
    | inr (m, w', e) ↦
        inr (refl, ground (arith, h, e), ground (arith, h, e), m, ground (arith, h, e))
  ]
