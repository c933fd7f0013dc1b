-- ===== src/Lib.antt =====
-- A Spectrum Access System grants CBSDs (radio base stations) the use of parts of 3550-3700 MHz. A CBSD
-- asks what is available (spectrum inquiry), asks for a grant, keeps it alive by heartbeats, and gives it
-- back or leaves. Each procedure is a batch of requests; every item is answered by a response code.
--
-- Records and Store hold the rows (models/models.py) that one request reads and writes. JSON columns and
-- texts that the services parse are held parsed. The record `Checks` has what is not modelled and only
-- asked: geometry, radio propagation, federal and DPA decisions, the SHA-1 of a reference id. Clock has
-- the time in microseconds (services/clock.py), read once for each request; the services read it several
-- times in a request. Codes has the response codes.
-- Lifecycle (services/lifecycle.py) has the states and events of CBSDs and grants, the two tables,
-- the resolution of a row's state and the events' effects. Auth has the checks of identity that the
-- procedures share (services/cbsd_auth.py, blacklist_service.py, concurrency.py, cpas_service.py).
-- Rows has the flush and deletion of rows, and a batch as a sequence of requests: the process and
-- database locks make one request one step, so a batch threads the tables from item to item.
-- Spectrum (services/spectrum_inquiry_service.py) computes available channels; MeasReport
-- (services/meas_report.py) checks measurement reports; Grants (services/grant_service.py) is
-- `process_grant`; Heartbeat (services/heartbeat_service.py, services/dpa_neighborhood.py) is
-- `process_heartbeat`; Renewal (services/grant_renewal.py) extends a grant in a heartbeat; Relinquishment
-- and Deregistration are the services of these names; Batch (services/cbsd_batch.py) merges schema errors
-- with a service's answers. Registration (services/registration_service.py) is `process_registration`,
-- over JSON values (Json, Number); Cpi (services/cpi_signature.py) verifies what an installer signed;
-- Checked is the result of a check that passes, refuses or raises. Cpas (services/mcp_protection.py,
-- services/cpas_service.py) merges the decisions of the daily coordination and writes them to the grants;
-- what decides them is not modelled, so its theorems hold for every list of decisions. Iap (services/iap)
-- is the engine that allocates interference to the grants near a protected point. RateLimit
-- (services/rate_limit.py) has the token buckets of the clients. Examples applies the theorems to
-- concrete rows.
--
-- In Heartbeat, Reply has the request and the answers, Guards the guards in their order, Authorize the
-- end of a heartbeat that passes them, Handler the rows and the batch; in Grants, Channel decides between
-- PAL and GAA, Proposal has the checks before the locks, Admission those under them and the new row; in
-- Registration, Params merges the parameters and finds missing ones, Validate checks their values,
-- Table writes the rows, Handler composes them.
--
-- A chain of early returns is split at the points where it looks a row up, into functions by clauses on
-- what was found. The loop of `_split_10mhz` has as fuel the number of grid steps in the range plus
-- one, since each step moves to the next grid edge. A level in dBm is an integer in thousandths of
-- a decibel, where the source has a float; a number of the registration's JSON (Number) is that, NaN or
-- infinite.
-- In Iap a power in mW is a natural number of some small unit, and the float divisions of the fair
-- shares are compared by multiplication. The rounds have the source's own bound, `max_iterations`, as
-- fuel; the loop over channels has one more than the whole channels up to the end of the range.
-- Not modelled: what the other protections decide, the federal databases, the PAL and FAD services, the
-- inputs of the IAP, propagation and geometry, the HTTP layer, and input and output.
pub mod Prelude
pub mod Clock
pub mod Json
pub mod Checked
pub mod Cpi
pub mod Codes
pub mod Number
pub mod Records
pub mod Lifecycle
pub mod Store
pub mod Auth
pub mod Spectrum
pub mod MeasReport
pub mod Renewal
pub mod Rows
pub mod Relinquishment
pub mod Deregistration
pub mod Registration
pub mod Heartbeat
pub mod Grants
pub mod Batch
pub mod Cpas
pub mod Iap
pub mod RateLimit
pub mod Examples
