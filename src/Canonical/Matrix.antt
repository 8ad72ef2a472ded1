-- ===== src/Canonical/Matrix.antt =====
-- The domain matrix of canonical/eligibility.py: its types and its rows, with the defaults of the
-- dataclass filled in.
use a_share_analysis.Common.{String, Bool, true, false, List, [], ◌∷◌}

pub data DomainEligibility : Type 0 where
  canonical_supported auxiliary_only blocked_pending_semantics not_applicable : DomainEligibility

pub record CanonicalDomainSpec : Type 0 where
  pub domain : String
  pub eligibility : DomainEligibility
  pub provider : String
  pub normalization_surface : String
  pub provider_datasets : List String
  pub output_name : String
  pub payload_fields : List String
  pub key_fields : List String
  pub requires_security_identity : Bool
  pub note : String

abbrev pub trade_calendar_spec : CanonicalDomainSpec
trade_calendar_spec = record {
  domain = "trade_calendar";
  eligibility = canonical_supported;
  provider = "amazingdata";
  normalization_surface = "trade_calendar";
  provider_datasets = "trade_calendar" ∷ [];
  output_name = "main";
  payload_fields = "market" ∷ [];
  key_fields = "market" ∷ "trade_date" ∷ [];
  requires_security_identity = false;
  note = "";
}

abbrev pub daily_bar_spec : CanonicalDomainSpec
daily_bar_spec = record {
  domain = "daily_bar";
  eligibility = canonical_supported;
  provider = "amazingdata";
  normalization_surface = "daily_bar";
  provider_datasets = "daily_bar" ∷ [];
  output_name = "main";
  payload_fields = "open" ∷ "high" ∷ "low" ∷ "close" ∷ "pre_close" ∷ "volume" ∷ "amount" ∷ [];
  key_fields = "security_id" ∷ "trade_date" ∷ [];
  requires_security_identity = true;
  note = "";
}

abbrev pub security_status_spec : CanonicalDomainSpec
security_status_spec = record {
  domain = "security_status";
  eligibility = canonical_supported;
  provider = "amazingdata";
  normalization_surface = "security_status_history";
  provider_datasets = "history_stock_status" ∷ [];
  output_name = "security_status";
  payload_fields =
      "pre_close" ∷ "high_limited" ∷ "low_limited" ∷ "price_high_lmt_rate" ∷ "price_low_lmt_rate"
      ∷ "is_st_sec" ∷ "is_susp_sec" ∷ "is_wd_sec" ∷ "is_xr_sec" ∷ [];
  key_fields = "security_id" ∷ "trade_date" ∷ [];
  requires_security_identity = true;
  note = "";
}

abbrev pub limit_price_spec : CanonicalDomainSpec
limit_price_spec = record {
  domain = "limit_price";
  eligibility = canonical_supported;
  provider = "amazingdata";
  normalization_surface = "security_status_history";
  provider_datasets = "history_stock_status" ∷ [];
  output_name = "limit_price";
  payload_fields =
      "pre_close" ∷ "up_limit" ∷ "down_limit" ∷ "up_limit_rate" ∷ "down_limit_rate" ∷ [];
  key_fields = "security_id" ∷ "trade_date" ∷ [];
  requires_security_identity = true;
  note = "";
}

abbrev pub adj_factor_spec : CanonicalDomainSpec
adj_factor_spec = record {
  domain = "adj_factor";
  eligibility = canonical_supported;
  provider = "amazingdata";
  normalization_surface = "adj_factor";
  provider_datasets = "adj_factor" ∷ "backward_factor" ∷ [];
  output_name = "main";
  payload_fields = "adj_factor" ∷ "backward_factor" ∷ [];
  key_fields = "security_id" ∷ "ex_date" ∷ "factor_type" ∷ [];
  requires_security_identity = true;
  note = "";
}

abbrev pub security_master_spec : CanonicalDomainSpec
security_master_spec = record {
  domain = "security_master";
  eligibility = auxiliary_only;
  provider = "amazingdata";
  normalization_surface = "security_master";
  provider_datasets = "code_list" ∷ "hist_code_list" ∷ "stock_basic" ∷ [];
  output_name = "main";
  payload_fields = [];
  key_fields = [];
  requires_security_identity = false;
  note =
      "identity dataset only: feeds the governed provider-symbol -> security_id bridge; never emits canonical market-fact rows";
}

abbrev pub ca_projection_spec : CanonicalDomainSpec
ca_projection_spec = record {
  domain = "ca_projection";
  eligibility = auxiliary_only;
  provider = "amazingdata";
  normalization_surface = "security_status_history";
  provider_datasets = "history_stock_status" ∷ [];
  output_name = "corporate_action";
  payload_fields = [];
  key_fields = [];
  requires_security_identity = false;
  note =
      "STATUS_FLAG_PROJECTION evidence tier (CR3-P0-11): an auxiliary indicator surface, never equivalent to a DIRECT_EVENT corporate action truth while the direct dividend/right-issue mappers are BLOCKED_PENDING_MAPPER";
}

abbrev pub corporate_action_spec : CanonicalDomainSpec
corporate_action_spec = record {
  domain = "corporate_action";
  eligibility = blocked_pending_semantics;
  provider = "amazingdata";
  normalization_surface = "corporate_action";
  provider_datasets = "corporate_action" ∷ [];
  output_name = "main";
  payload_fields = [];
  key_fields = [];
  requires_security_identity = false;
  note =
      "direct dividend/right-issue mappers are BLOCKED_PENDING_MAPPER in CR-2; CR-3 must not bypass them by reading Raw directly";
}

abbrev pub index_daily_spec : CanonicalDomainSpec
index_daily_spec = record {
  domain = "index_daily";
  eligibility = blocked_pending_semantics;
  provider = "amazingdata";
  normalization_surface = "index_daily";
  provider_datasets = "daily_bar" ∷ [];
  output_name = "main";
  payload_fields = [];
  key_fields = [];
  requires_security_identity = false;
  note =
      "provider INDEX_CODE carries no verified market attribution - a deterministic index identity cannot be built without guessing";
}

abbrev pub industry_member_spec : CanonicalDomainSpec
industry_member_spec = record {
  domain = "industry_member";
  eligibility = blocked_pending_semantics;
  provider = "amazingdata";
  normalization_surface = "industry_taxonomy";
  provider_datasets = "industry_taxonomy" ∷ [];
  output_name = "main";
  payload_fields = [];
  key_fields = [];
  requires_security_identity = false;
  note =
      "effective-interval semantics (out_date / current_sign interpretation) unverified - taxonomy owner is GALAXY_UNVERIFIED";
}

abbrev pub equity_structure_spec : CanonicalDomainSpec
equity_structure_spec = record {
  domain = "equity_structure";
  eligibility = blocked_pending_semantics;
  provider = "amazingdata";
  normalization_surface = "equity_structure";
  provider_datasets = "equity_structure" ∷ [];
  output_name = "main";
  payload_fields = [];
  key_fields = [];
  requires_security_identity = false;
  note = "report vs effective date semantics pending B6 verification";
}

abbrev pub bj_code_mapping_spec : CanonicalDomainSpec
bj_code_mapping_spec = record {
  domain = "bj_code_mapping";
  eligibility = blocked_pending_semantics;
  provider = "amazingdata";
  normalization_surface = "code_mapping_bj";
  provider_datasets = "code_mapping_bj" ∷ [];
  output_name = "main";
  payload_fields = [];
  key_fields = [];
  requires_security_identity = false;
  note = "BJ mapping identity surface has no verified mapper in CR-2";
}

abbrev pub industry_taxonomy_definition_spec : CanonicalDomainSpec
industry_taxonomy_definition_spec = record {
  domain = "industry_taxonomy_definition";
  eligibility = blocked_pending_semantics;
  provider = "amazingdata";
  normalization_surface = "industry_taxonomy";
  provider_datasets = "industry_taxonomy" ∷ [];
  output_name = "main";
  payload_fields = [];
  key_fields = [];
  requires_security_identity = false;
  note = "taxonomy DEFINITION surface (industry_base_info) has no verified mapper in CR-2";
}

-- _DOMAIN_SPECS
abbrev pub domain_specs : List CanonicalDomainSpec
domain_specs =
    trade_calendar_spec ∷ daily_bar_spec ∷ security_status_spec ∷ limit_price_spec ∷ adj_factor_spec
    ∷ security_master_spec ∷ ca_projection_spec ∷ corporate_action_spec ∷ index_daily_spec
    ∷ industry_member_spec ∷ equity_structure_spec ∷ bj_code_mapping_spec
    ∷ industry_taxonomy_definition_spec ∷ []
