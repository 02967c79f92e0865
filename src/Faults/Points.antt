-- ===== src/Faults/Points.antt =====
-- src/utils/fault-injector.ts: `FAULT_POINTS`, the names of the points at which faults are injected,
-- by key.
use rayls_sovereign_tests_au.Shared.{String, List, [], ◌∷◌}

abbrev pub fault_points : List (String × String)
fault_points =
    (
      "AFTER_INSERT_HISTORY",
      "enygma.handler.Receiver.HandleEnygmaCrossTransfer.after_insert_history",
    )
    ∷ ("AFTER_MINT_BATCH", "enygma.handler.Receiver.HandleEnygmaCrossTransfer.after_mint_batch")
    ∷ ("AFTER_REVERT_BATCH", "enygma.handler.Receiver.HandleEnygmaCrossTransfer.after_revert_batch")
    ∷ (
      "BEFORE_TRANSFER_COMPLETED",
      "enygma.handler.Receiver.HandleEnygmaCrossTransfer.before_transfer_completed",
    )
    ∷ ("FAIL_MINT", "enygma.handler.Receiver.HandleEnygmaCrossTransfer.fail_mint")
    ∷ ("AFTER_SRC_REVERT_SEND", "enygma.service.EnygmaRevertService.revertTransfersInPL.after_send")
    ∷ (
      "AFTER_CROSS_TRANSFER",
      "private_relayer.source.service.EnygmaOrchestrator.handleEnygmaTransfer.after_cross_transfer",
    )
    ∷ (
      "AFTER_REVERT",
      "private_relayer.source.service.EnygmaOrchestrator.handleEnygmaTransfer.after_revert",
    )
    ∷ (
      "EXECUTOR_BEFORE_EXECUTE",
      "enygma.service.EnygmaExecutor.ExecuteEnygmaCrossTransfer.before_execute",
    )
    ∷ ("PROOFGEN_GENERATE_START", "private_relayer.proofgen.ProofGenerator.Generate.start")
    ∷ (
      "PUBRELAYER_BLOCK_AFTER_PUSH",
      "public_relayer.handler.PublicRelayerHandler.Handle.after_push_messages",
    )
    ∷ (
      "PUBRELAYER_GEN_BEFORE_PUSH",
      "public_relayer.service.GeneratorService.Run.before_executor_push",
    )
    ∷ (
      "PUBRELAYER_GEN_AFTER_SIG_PERSIST",
      "public_relayer.service.GeneratorService.Run.after_signature_persist",
    )
    ∷ ("PUBRELAYER_GEN_BEFORE_ACK", "public_relayer.service.GeneratorService.Run.before_ack")
    ∷ (
      "PUBRELAYER_REVERT_BEFORE_PUSH",
      "public_relayer.service.RevertService.Run.before_revert_push",
    )
    ∷ (
      "PUBRELAYER_REVERT_AFTER_MARK",
      "public_relayer.service.RevertService.Run.after_revert_status_mark",
    )
    ∷ (
      "PUBRELAYER_DEPLOY_AFTER_GOV",
      "public_relayer.service.DeployerService.Deploy.after_governance_update",
    )
    ∷ ("PUBRELAYER_DEPLOY_BEFORE_ACK", "public_relayer.service.DeployerService.Deploy.before_ack")
    ∷ (
      "KOS_VIEWKEY_BEFORE_KMS", "kos.service.KeysService.CreateRaylsViewKeyPair.before_kms_encrypt",
    )
    ∷ ("KOS_VIEWKEY_BEFORE_DB", "kos.service.KeysService.CreateRaylsViewKeyPair.before_db_insert")
    ∷ ("KOS_VIEWKEY_AFTER_DB", "kos.service.KeysService.CreateRaylsViewKeyPair.after_db_insert")
    ∷ (
      "KOS_PUB_SIGNKEY_BEFORE_KMS",
      "kos.service.KeysService.CreatePublicRelayerRaylsSignKeys.before_kms_encrypt",
    )
    ∷ (
      "KOS_PUB_SIGNKEY_BEFORE_DB",
      "kos.service.KeysService.CreatePublicRelayerRaylsSignKeys.before_db_insert",
    )
    ∷ (
      "KOS_PUB_SIGNKEY_AFTER_DB",
      "kos.service.KeysService.CreatePublicRelayerRaylsSignKeys.after_db_insert",
    )
    ∷ (
      "KOS_KEY_AGREEMENT_BEFORE_KMS",
      "kos.service.KeysService.CreateKeyAgreement.before_kms_encrypt",
    )
    ∷ ("KOS_KEY_AGREEMENT_BEFORE_DB", "kos.service.KeysService.CreateKeyAgreement.before_db_insert")
    ∷ ("KOS_KEY_AGREEMENT_AFTER_DB", "kos.service.KeysService.CreateKeyAgreement.after_db_insert")
    ∷ (
      "KOS_PAYMENT_SPEND_BEFORE_KMS",
      "kos.service.KeysService.CreatePaymentSpendKey.before_kms_encrypt",
    )
    ∷ (
      "KOS_PAYMENT_SPEND_BEFORE_DB",
      "kos.service.KeysService.CreatePaymentSpendKey.before_db_insert",
    )
    ∷ (
      "KOS_PAYMENT_SPEND_AFTER_DB", "kos.service.KeysService.CreatePaymentSpendKey.after_db_insert",
    )
    ∷ ("CTS_RECEIPTER_BEFORE_POLL", "cts.batcher.ReceipterService.receipt.before_poll")
    ∷ []
