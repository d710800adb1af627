-- ===== src/Protocol/Messages/RoundTrip.antt =====
-- Writing and reading of the structs of src/lib/usbip_protocol_definitions.h.
use usbip_server.Prelude.{
  ℕ, ◌+◌, ◌*◌, ◌/◌, ◌%◌, ◌^◌, ◌<◌, ◌≡◌, refl, List, ◌++◌, arith, length, u32_mod,
}
use usbip_server.Protocol.Messages.{HeaderBasic, read_header_basic, header_basic_bytes}

-- A header whose fields are 32 bit words.
pub record FitsWords (h : HeaderBasic) : Type 0 where
  pub command_fits : h.command < u32_mod
  pub seqnum_fits : h.seqnum < u32_mod
  pub devid_fits : h.devid < u32_mod
  pub direction_fits : h.direction < u32_mod
  pub ep_fits : h.ep < u32_mod

be32_lem :
    (n : ℕ)
    → n < u32_mod
    → n / 2 ^ 24 % 256 * 2 ^ 24 + n / 2 ^ 16 % 256 * 2 ^ 16 + n / 2 ^ 8 % 256 * 2 ^ 8 + n % 256 ≡ n
be32_lem n h = omega arith

abbrev header_of : ℕ → ℕ → ℕ → ℕ → ℕ → HeaderBasic
header_of command seqnum devid direction ep = record {
  command = command;
  seqnum = seqnum;
  devid = devid;
  direction = direction;
  ep = ep;
}

-- A basic header of 32 bit fields is 20 bytes on the wire, and is read back from them, whatever follows.
pub read_header_basic-bytes :
    (h : HeaderBasic) (rest : List ℕ)
    → FitsWords h
    → (read_header_basic (header_basic_bytes h ++ rest) ≡ h) × (length (header_basic_bytes h) ≡ 20)
unfolding read_header_basic header_basic_bytes
read_header_basic-bytes h rest fits = (
  ap5 (be32_lem h.command fits.command_fits) (be32_lem h.seqnum fits.seqnum_fits)
      (be32_lem h.devid fits.devid_fits) (be32_lem h.direction fits.direction_fits)
      (be32_lem h.ep fits.ep_fits),
  refl,
)
  where
    ap5 :
        {a b c d e a' b' c' d' e' : ℕ}
        → a ≡ a'
        → b ≡ b'
        → c ≡ c'
        → d ≡ d'
        → e ≡ e'
        → header_of a b c d e ≡ header_of a' b' c' d' e'
    ap5 p q r s t = rw (p, q, r, s, t) refl
