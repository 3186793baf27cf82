-- ===== src/MultipartyFss/KeyShare.antt =====
-- multiparty_fss/keyshare.py: the key share of one party, with its checks. multiparty_fss/prg.py:
-- the expansion of a seed.
use Prim.Native.String.{String}
use Prim.Native.Char.{code}
use fed_kg_rag_secure_impl.Prelude.{
  ℕ, Bool, true, not, List, [], ◌∷◌, length, ltb, leb, ◌==◌, ◌&&◌, ◌||◌, str_eq,
}
use fed_kg_rag_secure_impl.Python.{
  Result, ok, parameter_error, key_share_format_error, ◌>>◌, raise_if,
}
use fed_kg_rag_secure_impl.MultipartyFss.Params.{
  MpDpfParams, seed_bytes, mu, seeds_per_row, sigma_bytes, cw_bytes,
}
use fed_kg_rag_secure_impl.MultipartyFss.Arrays.{WordArrays, Bytes}

abbrev pub codes : String → List ℕ
codes String.[] = []
codes (String.◌∷◌ c s) = code c ∷ codes s

abbrev is_hex_digit : ℕ → Bool
is_hex_digit c = (leb b'0' c && leb c b'9') || (leb b'a' c && leb c b'f')

abbrev all_hex : List ℕ → Bool
all_hex [] = true
all_hex (c ∷ cs) = is_hex_digit c && all_hex cs

-- The patterns `\A[0-9a-f]{32}\Z` and `\A[0-9a-f]{64}\Z`.
unfoldable pub is_hex : ℕ → String → Bool
is_hex count text = length (codes text) == count && all_hex (codes text)

abbrev pub domain_binding_raw : String
domain_binding_raw = "raw"

module _ (a : WordArrays) where
  open a use {Array, Buffer, nbytes}

  pub record MpDpfKeyShare : Type 0 where
    pub params : MpDpfParams
    pub party_index : ℕ
    pub keygen_id : String
    pub domain_binding : String
    pub sigma : Bytes
    pub correction_words : Buffer

  -- `MpDpfKeyShare(...)` with its `__post_init__`.
  unfoldable pub new_key_share :
      MpDpfParams → ℕ → String → String → Bytes → Buffer → Result MpDpfKeyShare
  unfolding is_hex
  new_key_share params party_index keygen_id domain_binding sigma correction_words = do
    raise_if (not (ltb party_index params.party_count)) key_share_format_error
    raise_if (not (is_hex 32 keygen_id)) key_share_format_error
    raise_if (not (str_eq domain_binding domain_binding_raw) && not (is_hex 64 domain_binding))
        key_share_format_error
    raise_if (not (length sigma == sigma_bytes params)) key_share_format_error
    raise_if (not (nbytes correction_words == cw_bytes params)) key_share_format_error
    ok (record {
      params = params;
      party_index = party_index;
      keygen_id = keygen_id;
      domain_binding = domain_binding;
      sigma = sigma;
      correction_words = correction_words;
    })

  -- `seed_blocks()[row, column]`
  unfoldable pub seed_block : MpDpfKeyShare → ℕ → ℕ → Bytes
  seed_block k row column = a.block k.sigma (seeds_per_row k.params) seed_bytes row column

  -- `cw_matrix()[column]`
  unfoldable pub cw_row : MpDpfKeyShare → ℕ → Array
  cw_row k column = a.matrix_row k.correction_words (seeds_per_row k.params) (mu k.params) column

  -- `expand_seed`; `G` is SHAKE-256 over the context of the parameters and the seed.
  unfoldable pub expand_seed : (MpDpfParams → Bytes → Array) → MpDpfParams → Bytes → Result Array
  expand_seed G params seed = do
    raise_if (not (length seed == seed_bytes)) parameter_error
    ok (G params seed)
