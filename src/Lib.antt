-- ===== src/Lib.antt =====
-- A verification library of adus-be, the FastAPI backend in which analysts underwrite properties.
--
-- The program's parts. A deal (an underwriting) has a status, and a table says which status may
-- follow which and for whom. Changing the status of a deal writes its row, flags the linked listing,
-- appends a row to the process log, and announces the deal to clients. The process log keeps, for
-- every subject and flow, one chain of transitions that the database's constraints hold together, and
-- a backfill gives old deals their first row. Users comment on deals in threads whose counters are
-- kept beside the comments; the body of a comment is a document that is checked, parsed and searched
-- for mentions. A new deal is seeded with operating expenses from a catalog, and its child rows are
-- kept by a diff. The calculator turns the inputs of a deal (purchase, loans, revenue, expenses,
-- optimization items) into its figures; saving stores inputs and figures, and the simulation runs the
-- same calculator again over stored deals with another interest rate or down payment, then filters,
-- sorts and pages them. Reference data (the options of selects) is read through a cache that expires
-- and that writes empty. Analytics orders counts for charts. When the price of a listing changes, a job
-- recalculates its underwritings by the calculator that saves them.
--
-- Which file is about which code:
--   DealStatus   app/iron_bank/services/deal_status_service.py, with the enumeration and its texts.
--                DealStatus.Policy is about one move, DealStatus.Walks about sequences of moves.
--   ProcessLog   app/core/process_log: the tables (models.py); ProcessLog.Repository the statements
--                with the constraints that they can violate, ProcessLog.Service the entry points.
--                Chain, Inserts, Snapshots and Seeds are about single operations, Record.Refinement
--                about record_transition against a log of statuses, Rerun about the backfill.
--   Discussions  app/core/discussions: the tables and statements (models.py, repository.py);
--                Discussions.Service create, edit and delete; Counters, Newest, Outcomes and Mentions
--                the proofs. Discussions.Body is body/: Limits the limits on raw JSON, Nodes the
--                parsed document and its traversals, Pipeline the whole check; Visits, Fits, Bounds,
--                Facts and Created hold the proofs.
--   Deals        update_deal_status and update_property_pending of
--                app/iron_bank/services/operations/update_underwriting_service.py; Deals.Creation is
--                record_created of app/iron_bank/services/deal_status_history.py; Rows, Chains,
--                Listings, StatusUpdates and InStep relate the rows of deals to the process log and
--                to the listings.
--   Opex         app/iron_bank/services/engine/opex_catalog.py: the rows here, their amounts in
--                Opex.Amounts; Opex.Columns, Opex.Rows and Opex.Updates hold the proofs.
--   ChildRows    _upsert_children of app/iron_bank/repositories/underwriting_repository.py.
--   UnderwritingThreads   _get_or_create_thread of
--                app/iron_bank/services/underwriting_discussion_service.py, with the commits of others
--                between its statements as parameters.
--   Calculator   app/iron_bank/services/engine/underwriting_calculator.py over decimal arithmetic as a
--                parameter: operations on prices here, Calculator.Loans the loan and out-of-pocket
--                figures, Calculator.Forecast the expenses and revenues, Totals and Guards proofs.
--   Saving       app/iron_bank/services/operations/save_underwriting_service.py: what is resolved from
--                a request here, the columns of figures in Saving.Fields, the detail columns in
--                Saving.Details; Saving.Guarded and Saving.Columns hold proofs. Saving.Updates is the figures
--                of an update (update_underwriting_service.py beside it).
--   Simulation   app/iron_bank/services/operations/simulate_underwritings_service.py: one row here, the
--                request with filters, order and pages in Simulation.Listing; SameFigures relates a
--                row to what saving stores, Flags and Requests are about errors, Order about the sort,
--                Pages about paging.
--   Repricing    the jobs of app/workflows that carry a changed price of a listing to its underwritings:
--                rows and reports here, Repricing.Prices and Repricing.Payloads the payload builder,
--                Repricing.Updates reconcile_purchase_price of
--                app/iron_bank/services/operations/update_underwriting_service.py, Repricing.Job and
--                Repricing.Batch the jobs; FanOut, Again and Counts are about what they do, with Found,
--                PerRow, Priced, Decisions, Reported and StaysDistinct for the steps.
--   ReferenceData   app/core/reference_data: the table and its statements here, the two caches and
--                the entry points in ReferenceData.Service; Freshness is about how old an answer may
--                be, Filters and Groups about what it holds.
--   Analytics    app/core/analytics/ordering.py; Tallies are sums over counts, Fixed, Ranked, Periods
--                and Series the proofs about the four kinds of chart.
--   Json         JSON values; Prelude what all of these share; Examples tests on concrete inputs.
--
-- How state is modelled. A function that reads or writes the database takes the tables as a record and
-- returns them beside its result; a raised exception is `err`, and the tables of before are what the
-- caller is left with, since nothing commits before the end; the update of a repriced row gives its
-- exception beside the table, since a refresh can raise after the commit. A table is a list of rows, newest first,
-- with the next value of its identity column. Time is a number: `now` is when the transaction began.
-- Functions keep the names that they have in the code.
--
-- Loops are recursion on lists, or on fuel: the loop over the stack of raw nodes has a turn for each
-- node that is allowed and one more, since every turn counts a node and the count is checked; the
-- traversal of a document has a turn for each node and one to find the stack empty; the loop over the
-- periods of a chart has a turn for each day from the first period to the last.
--
-- Parameters, for code that is not here: the SHA-256 of canonical JSON (payload_hash); Pydantic's
-- validation and dump of a document (model_validate, model_dump); the lookup of users; Python's
-- isdigit, int, repr and str.title, which read Unicode's tables; decimal arithmetic; the validation of
-- the calculator's inputs; FastAPI's jsonable_encoder; the database's order of texts; what it makes of a
-- row that is written, with the exception that it raises, if it does. Of the program's own code, the
-- document that a snapshot of a deal stores, which may raise, the loading of a page of the simulated
-- list, which may raise too, and the plain-text rendering of a comment (body/text.py) are parameters.
-- What other requests do while a statement is awaited is a parameter where the code depends on it (the
-- shared cache of reference data, the discussion threads of deals).
--
-- Not modelled: the HTTP layer and dependency wiring, the read paths and their queries, the statements
-- that create an underwriting and update it beyond its price, markets, users, Zillow and Airbnb data,
-- the workflow that prepares deals in batches, and the migrations.
pub mod Prelude
pub mod Json
pub mod DealStatus
pub mod ProcessLog
pub mod Discussions
pub mod Deals
pub mod UnderwritingThreads
pub mod Opex
pub mod Calculator
pub mod Repricing
pub mod Saving
pub mod Simulation
pub mod ReferenceData
pub mod Analytics
pub mod ChildRows
mod Examples
