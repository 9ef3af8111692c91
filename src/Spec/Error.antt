-- ===== src/Spec/Error.antt =====
-- The `code` of a `ProfileSpecError` of worker/solver.mjs.
pub data Error : Type 0 where
  invalid_profile_spec unknown_profile_field unknown_output_format unknown_base_profile : Error
  empty_region unknown_region invalid_option_list invalid_service unknown_service : Error
  invalid_custom_rule_providers too_many_custom_rule_providers invalid_custom_rule_provider : Error
  unknown_custom_rule_provider_field invalid_custom_rule_provider_url : Error
  conflicting_service_options shared_service_rule invalid_boolean_option : Error
  conflicting_custom_rule_target invalid_language unsupported_profile_options : Error
  invalid_profile_data invalid_service_groups too_many_service_groups invalid_service_group : Error
  unknown_service_group_field invalid_service_group_id duplicate_service_group_id : Error
  invalid_service_group_name reserved_service_group_name duplicate_service_group_name : Error
  invalid_service_group_members duplicate_service_group_member invalid_service_group_routes : Error
  too_many_service_group_routes invalid_service_group_route duplicate_service_group_route : Error
  protected_service_group unsupported_service_group_route incompatible_service_group_route : Error
  conflicting_service_group_route incompatible_service_rule_owners : Error
  non_routable_only_region conflicting_region_constraints no_active_region : Error
  inactive_preferred_region inactive_preferred_service : Error
  static_template_not_supported_by_solver dangling_group_reference : Error
