-- ===== src/Lib.antt =====
-- Verification library of the survey workspace, a Django program that offers survey providers'
-- projects to employees and suppliers, freezes the price of each attempt and records its outcome.
--
-- The parts of the program and their files:
-- * Base holds what all share: Boolean tests on native numbers, signed integers (Int), calls that
--   may raise (Result), database tables (Table, and Keys for their unique keys), lists (Lists) and
--   the walk along parents (Walk).
-- * Money models the rounding of vendors/services.py `payable_cpi` and surveys/report_pricing.py
--   `apply_percentage`. Amounts are whole hundredths, so that a percentage has the bound 10000.
-- * Vendors models the suppliers' side. Vendors/Models.antt has the columns of vendors/models.py and
--   surveys/models.py; Policy is `organization_client_policies_for_user`, Scope is
--   vendors/access.py `vendor_scope_user_id`, Context is `resolve_vendor_survey_context`, and
--   Reservation is `reserve_attempt_capacity`, `finalize_attempt_capacity`, `expire_reservation` and
--   the task of vendors/tasks.py. A context offers a survey at a price; a reservation checks the
--   allocation again under a lock and freezes that price on the attempt.
-- * ReportPricing models the rest of surveys/report_pricing.py: which CPI a viewer of the reports
--   sees, from the prices that a reservation froze.
-- * Vault models prescreener_vault/reuse.py: Budget has the monthly count of reuses, Select the
--   choice of a stored profile and its undoing, and Commit the reuse of one profile under the locks
--   (`_locked_state`, `_commit_reuse`).
-- * Accounts models accounts/access.py: Accounts.antt has the permission codes of an account and the
--   roles that it may assign, Subordinates the accounts below a user and those it may manage, and
--   Activity whose tracking activity an account sees.
-- * Journey models the handlers on one attempt. Ends has the local endings, the server callback of
--   RFG (surveys/views.py) and `reconcile_attempt_status` (surveys/services.py); Status is the page
--   `survey_status` to which the providers' browsers return; Settled puts them in any order. Each
--   handler passes the attempt's status to `finalize_attempt_capacity` of Vendors.
-- * Toluna models surveys/toluna_notifications.py, the notifications that Toluna's server sends:
--   Toluna.antt has the tables, the checks of a payload and the links to surveys and attempts
--   (`_resolve_links`), Events what a notification does to an attempt, a quota or a survey, Ingest its
--   reception and its retries (`ingest_toluna_notification`, `_reconcile_notification`). Newest
--   follows the newest notification of a quota over all deliveries, in the code's order; After, and
--   Replay/Latest for a survey and wave, describe the last notification by its own columns. Replay
--   selects what is tried again after an inventory run of that provider, and Webhook is the endpoint
--   of surveys/webhook_views.py that receives them.
-- * Inventory models the synchronization of a provider's surveys (surveys/services.py): Merge is
--   `merge_inventory`, Sync is `sync_surveys` with its batches and the closing of what is no longer
--   listed; `LocalIdSequence` and `SyncLease` (surveys/models.py) are in Inventory.antt.
-- * SignedRedirects models surveys/innovatemr_callbacks.py: the check of a redirect's signature, whose
--   answer is an argument of `survey_status`.
-- * SupplierCallbacks models surveys/supplier_callbacks.py: the queueing of a result for the supplier
--   that issued the link, its claim by a worker and its ending, and several workers in any order.
-- * FinalIds models surveys/final_ids.py: the reading of an uploaded list of RIDs, and the import
--   that decides on the client's attempts.
-- * Dashboard models surveys/dashboard.py: the window of each range key, cut into buckets, and the window
--   that it is compared with (Dashboard.antt), and the counts of the chart over the buckets (Points).
-- * SurveyFlow models the links of surveys/survey_flow.py that take a respondent to InnovateMR and to
--   BioBrain.
-- A handler takes the tables and returns its result beside the new tables; where it raises, its
-- transaction gives the old ones back. The time, the key of a new row, and settings are arguments.
--
-- Fuel: the walk up the organization's units gets two steps more than there are units, and the one
-- from a user to the owning supplier one step more than there are users. Both visit no row twice,
-- and theorems beside them say that this never runs out. The closure of subordinates and of units
-- (Base/Closure.antt) gets two rounds more than there are rows, and the climb from a unit to its
-- branch three levels, one for each type of unit. The loop over a run's batches gets a step for
-- each item, and no batch is empty. The dashboard's loops over time get one step more than the
-- window has microseconds, and each goes forward. All other loops run along their
-- lists.
--
-- Not modelled: the web framework, HTTP, caches, spreadsheets, and the aggregates of reports but the
-- dashboard's chart; the clients of the providers, and the start of an attempt; the querysets that
-- list surveys (only the rules for one survey are here); of the vault, the loop around the choice and
-- the commit; of the synchronization, quotas and targeting, and surveys/provider_services.py.
pub mod Base
pub mod Money
pub mod ReportPricing
pub mod Vendors
pub mod Accounts
pub mod Vault
pub mod Dashboard
pub mod FinalIds
pub mod SupplierCallbacks
pub mod SurveyFlow
pub mod Journey
pub mod Toluna
pub mod Inventory
pub mod SignedRedirects
