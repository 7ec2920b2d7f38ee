-- ===== src/Dhcp/Options/Overrun.antt =====
-- Where the parser reads past the message.
use nucleo_tests.Base.{
  ℕ, suc, ◌+◌, ◌-◌, ◌≡◌, ◌≢◌, arith, refl, ◌∙◌, false, List, [], ◌∷◌, ◌++◌, length, ◌==◌, All,
}
use nucleo_tests.Base.Run.{fault}
use nucleo_tests.Socket.{Net}
use nucleo_tests.Dhcp.Options.{Parsed, parse_from, dhcp_parse_options}
use nucleo_tests.Dhcp.Options.Meaning.{
  ServerOption, IsOther, encode_all, parse-encode_all, length-le-encode_all,
}

module _ {W : Type 0} (net : Net W) where
  -- A message that fills its buffer and whose last byte is the code of an option, after any options
  -- written with their lengths, makes the parser read past the buffer.
  pub parse_options-overrun :
      (os : List ServerOption) (code : ℕ) (r : Parsed) (w : W)
      → All IsOther os
      → code ≢ 0
      → code ≢ 255
      → dhcp_parse_options net (encode_all os ++ code ∷ []) (length (encode_all os) + 1) r w ≡ fault
  unfolding dhcp_parse_options parse_from
  parse_options-overrun os code r w h p q =
      let size = length (encode_all os) + 1 in
      let pad : (code == 0) ≡ false = ground arith in
      let stop : (code == 255) ≡ false = ground arith in
      parse-encode_all net os h (suc size) (suc (size - length os)) (code ∷ []) size 1 r w
        (omega (arith, length-le-encode_all os)) refl
      ∙ rw (pad, stop)
