-- ===== src/Lib.antt =====
-- The scripts of ServerStatus-RustL's web pages: web/static/js/expiry.js, which adds due dates to the
-- status page, and web/static/js/admin.js, the console that edits the settings of the server.
--
-- expiry.js reads `/json/stats.json` and shows, above the table of servers, a panel of those that need
-- attention, and a line in each row. admin.js keeps one `state` with the settings, lists the servers
-- that it merges from the configuration, the reports and the settings, edits them by dialogs, and
-- saves them by transactions that post the whole of the settings, or a part of them, and take over
-- what the back end has saved.
--
-- Which file models which part:
-- - Prelude: the language's strings, arrays, maps, sets and numbers, as far as the scripts use them.
-- - Expiry: expiry.js. `Expiry` has the tests on one server (`needsAttention`), Expiry.Texts its texts,
--   Expiry.Risk the orders (`sortByRisk`), Expiry.Panel the panel (`renderPanel`), Expiry.Rows the
--   rows (`decorateRows`, `replaceManagedNode`), Expiry.Schedule the events and retries (`render`,
--   `refresh`, `scheduleRowDecoration`), Expiry.Bridge the wrapping of `fetch`.
-- - Billing: labels, dates and amounts (`normalizeDateValue`, `parsedAmount`, `labelsToMap`).
-- - Settings: the settings and their payload (`ensureSettings`, `settingsPayloadFromSettings`).
-- - Servers: the merged list (`serverItems`, `serverGroups`).
-- - Saving: requests and transactions (`saveSettingsPayload`, `saveScopedSettings`), as functions from
--   a state to a result and a state.
--   Saving.Channels has the saves of one notification channel (`saveNotificationModule`,
--   `reloadNotificationState`), Saving.Channels.Trials the test messages (`testNotification`), and
--   Saving.Channels.Marked the marks of the page over all of these. The settings that a handler reads
--   before a save and after it are two replies.
-- - Queue: `createSettingsTransactionQueue`, as promises whose reactions the event loop orders.
-- - Notifications: the forms of the channels: how they are drawn (Shown: `renderTgbotNotification`),
--   collected (Collected, Receivers: `collectWebhookSettings`) and tested before a test message
--   (Checks: `validateWebhookSettingsForTest`), and the marks of the local save buttons (Page:
--   `localSnapshot`, `refreshLocalDirty`), with the addresses and the reminders.
-- - Editors: the dialogs (`applyServerEditor`, `applyAlertRuleEditor`) and the handlers that save
--   (`applyEditor`, `deleteServer`, `duplicateServer`).
-- - Session: `login`, `loadDashboard`, `renderAll`, `saveDashboard`, `logout` and the deleted servers.
-- - AccessKeys: the rows of the access keys (`collectAccessKeys`, `accessKeyItems`, `nextAccessKeyId`)
--   and the dialog that copies a command for an agent (`applyAccessCommandEditor`).
-- - Secrets: the fields that mask secrets. Account: the path of the console and the account form.
-- - Random: `stableId`, `randomSecret` and `nextServerId`, of given bytes.
-- - Tests: runs on concrete data.
--
-- Parameters stand for what the browser and the back end do: `localeCompare`, `toLocaleString`, the
-- replies to requests, the order of events and the answers to questions. Where a field of the data
-- is absent it is `none`, or the empty text where the scripts do not tell the two apart. Number
-- fields of forms that are not rows of digits stay the texts that they are, and what `JSON.stringify`
-- writes for them is a parameter. A plain object is a dictionary in the order in which it was filled;
-- what is said of one does not rest on that order. One handler runs to its
-- end before the next starts, except in Queue, where the transactions that `enqueueSettingsWrite`
-- takes wait for each other.
--
-- Bounds: the decimal printing of `n` runs on fuel `n + 1`, of which it needs one for each digit;
-- the search for a free name of a key on one round more than there are names, since each round
-- passes a name that is in use, and that for a name of a copied server on a given fuel; the
-- carrying of a day past the end of its month on fuel 4, where 99 days need three. The scripts' own
-- bounds are 20 retries for the rows, 40 for the panel, and 8 servers in the list. All else is
-- structural recursion.
--
-- Not modelled: the functions that build tables, dialogs and icons, themes, the minified homepage, and
-- the back end and the agents in server, client and common.
pub mod AccessKeys
pub mod Account
pub mod Billing
pub mod Editors
pub mod Expiry
pub mod Notifications
pub mod Prelude
pub mod Queue
pub mod Random
pub mod Saving
pub mod Secrets
pub mod Servers
pub mod Session
pub mod Settings
pub mod Tests
