-- ===== src/Telemetry/Tests.antt =====
-- The probe theorems with one probe, whose first input is taken.
use vcv_rack_mcp.Prelude.{
  inl, ℕ, ◌≡◌, refl, ◌⊎◌, String, true, false, [], ◌∷◌, none, some, str_eq, any, ◌&&◌, All, ◌<◌,
  arith, lookup,
}
use vcv_rack_mcp.Errors.{ok}
use vcv_rack_mcp.Connection.{SelectedInstance}
use vcv_rack_mcp.RateLimiter.{new_rate_limiter}
use vcv_rack_mcp.Transactions.{TransactionManager, mint_token}
use vcv_rack_mcp.Transactions.Samples.{sample_signer}
use vcv_rack_mcp.Transactions.Preview.{
  PreviewReply, PreviewResult, preview, checked_reply, prune_expired, token_binding,
}
use vcv_rack_mcp.Transactions.Commit.{CommitTimes}
use vcv_rack_mcp.Transactions.Accept.{previewed_request, confirming}
use vcv_rack_mcp.Telemetry.{
  Snapshot, choose_slot, existing_slot, new_slot, probes, feeds, is_over_limit, free_slot,
  free_input, is_free, attach_operations,
}
use vcv_rack_mcp.Telemetry.Attach.{
  AttachArgs, AttachReply, AttachReport, preview_attach_probe, commit_attach_probe,
}
use vcv_rack_mcp.Telemetry.Detach.{DetachArgs, detach_probe}
use vcv_rack_mcp.Telemetry.Slots.{offers, IsFull, choose_slot_cases}
use vcv_rack_mcp.Telemetry.Reports.{detach_probe-preview}
use vcv_rack_mcp.Telemetry.Attached.{commit_attach_probe-preview}

abbrev taken_first : Snapshot
taken_first = record {
  modules =
      record {
        module_id = "7";
        is_probe = true;
        inputs =
            record { port_id = 0; connected = true }
            ∷ record { port_id = 1; connected = false }
            ∷ [];
      }
      ∷ [];
  cables = record { cable_id = "c"; input_module_id = "7"; input_id = 0 } ∷ [];
}

choose_slot_cases_example :
    ((id : String) × (i : ℕ) × (choose_slot taken_first none ≡ existing_slot id i)
      × (i < 8)
      × (any (offers id i) (probes taken_first) ≡ true))
    ⊎ ((choose_slot taken_first none ≡ new_slot) × All IsFull (probes taken_first))
choose_slot_cases_example = choose_slot_cases taken_first

abbrev rack : SelectedInstance
rack = record {
  instance_id = "one";
  session_id = "s";
  rack_version = "2";
  rack_edition = "free";
  port = 1;
  pid = 2;
}

abbrev initial : TransactionManager
initial = record { plans = []; load_bindings = []; limiter = new_rate_limiter 4 1000 }

abbrev reply : PreviewReply
reply = record {
  plan = "p";
  plan_hash = "h";
  base_fingerprint = "f";
  patch_epoch = 3;
  risk_level = "low";
  confirmation_required = false;
  rest = "{}";
}

abbrev shown : PreviewResult
shown = record {
  preview = reply;
  confirmation = record {
    token = mint_token sample_signer (token_binding rack reply 300_010);
    expires_at = 300_010;
    required = false;
  };
}

abbrev to_attach : AttachArgs
to_attach = record { source = "3"; port_id = 0; probe = none; expected_patch_epoch = some 3 }

abbrev bridged : AttachReply
bridged = record { alias_to_module_id = [] }

abbrev wired : Snapshot
wired = record taken_first {
  cables =
      record { cable_id = "c"; input_module_id = "7"; input_id = 0 }
      ∷ record { cable_id = "d"; input_module_id = "7"; input_id = 1 }
      ∷ [];
}

abbrev times : CommitTimes
times = record { pruned = 20; verified = 21; cut = 22; at = 23 }

attach_shown :
    (preview_attach_probe sample_signer 5 10 to_attach rack taken_first (ok reply) initial []).2
    ≡ ok (shown, existing_slot "7" 1)
unfolding preview_attach_probe is_over_limit choose_slot free_slot free_input is_free preview
    checked_reply attach_operations
attach_shown = refl

commit_attach_probe-preview_example :
    let (m', metas', result) =
      preview_attach_probe sample_signer 5 10 to_attach rack taken_first (ok reply) initial [] in
    let o =
      commit_attach_probe sample_signer times
        (confirming "op" rack shown)
        (ok tt)
        (ok "done")
        (λ answer. bridged)
        (ok wired)
        m'
        metas' in
    (o.sent ≡ previewed_request "op" rack reply ∷ [])
    × ((report : AttachReport) × (o.result ≡ ok ("done", report))
        × (report.probe_module_id ≡ "7")
        × (report.probe_input_id ≡ 1)
        × (lookup "h" o.metas ≡ none)
        × ((report.cable_id ≡ "")
            ⊎ (any
                  (λ c.
                    feeds report.probe_module_id report.probe_input_id c
                    && str_eq c.cable_id report.cable_id)
                  wired.cables
                ≡ true)))
commit_attach_probe-preview_example =
    commit_attach_probe-preview sample_signer 5 10 to_attach rack taken_first (ok reply) initial []
      shown (existing_slot "7" 1) times "op" "done" (λ answer. bridged) wired "7" attach_shown
      (omega arith) (omega arith) (record { named = λ e. absurd (cc e); which = inl refl })

abbrev to_detach : DetachArgs
to_detach = record {
  operation_id = "op";
  probe_module_id = "7";
  probe_input_id = 0;
  expected_patch_epoch = none;
}

detach_probe-preview_example :
    (detach_probe sample_signer 5 10 times to_detach rack taken_first
      (ok reply)
      (ok tt)
      (ok "done")
      initial).0.sent
    ≡ previewed_request "op" rack reply ∷ []
unfolding preview checked_reply prune_expired
detach_probe-preview_example =
    detach_probe-preview sample_signer 5 10 times to_detach rack taken_first (ok reply) (ok "done")
      initial shown (omega arith) (omega arith) refl
