-- ===== src/Lib.antt =====
-- astroid.club: the game economy of a club of token holders. The server keeps it in memory, in
-- one class for each part; this library models the classes one by one, each as a record for its
-- state and a function for each method, and proves what they promise.
--
-- The parts and their files. RaidVault is server/game/raid-vault.ts, the stealable treasury of
-- each asteroid. HolderTracker is server/verification/holder-tracker.ts, the eligibility of a
-- holder with its flash-loan guard; Trace and Guard relate it to the history of calls.
-- BetEscrow is server/game/bet-escrow.ts, the ledger of bets on raids: Config is the split of a
-- lost wager, Split the shares of the defenders, and the other children prove. Syndicate is
-- server/game/syndicate-manager.ts: Names are the checks of a name and a tag, Burn the cost of
-- a creation, and the other children prove. Cooldowns is server/game/cooldowns.ts, the
-- cooldowns of actions: Lists sees a wallet's list as one expiry of each type, Deadlines
-- relates the manager to the history of its calls, Queries says what it answers.
-- EmissionGovernor is server/game/emission-governor.ts, the throttle of new rewards: Window is
-- its rolling window, Issued the window against the history of calls, Scale what it lets
-- through of a yield. AsteroidRegistry is server/game/asteroid-registry.ts: its own file has
-- the state, the effects and the incoming raids, Miners the miners, the discoveries and the
-- multipliers, and the other children prove. Power is the tiers and powers of
-- server/game/types.ts. StakeManager is server/game/stake-manager.ts: Positions are stakes and
-- homes, Presence what a stake counts for, Credits the pending yield with its store and ledger.
-- Prelude, Text and JsMap hold what the parts share: tests, lists, integers, text as code
-- units, and JavaScript's Map and Set as lists of entries in insertion order.
--
-- How the code is read. Wallets, raids, asteroids and ids are opaque keys, so they are numbers;
-- times and token amounts are whole numbers of at least 0, though the protocol admits fractions
-- of a token, and the products and quotients of whole numbers are exact where the code rounds
-- in floating point, but for the split of a yield (Refinery/Split), which rounds as the code
-- does. The clock, drawn ids and what other components report are arguments of the calls. A
-- method that throws or returns an error is a function into a result type; logging is left out.
-- Where the code shares an object between maps, the objects live in a store and the maps hold
-- references (BetEscrow); where it changes an object in place under its key, the entry is
-- replaced in place (Syndicate).
--
-- How the parts interact. The game world (server/game/world.ts) opens a pool and places a bet
-- when a raid is launched with a wager, and resolves the pool with the stakes of the defenders
-- when the raid ends; what is recirculated goes to raid vaults of other asteroids. The
-- syndicate manager asks the stake manager for the founder's stakes and to unstake the creation
-- cost. The stake manager holds the asteroid registry and moves its totals with each stake, so
-- the registry is part of its state. The expedition tracker works on the stake manager, its
-- registry and the cooldowns, which are parts of its state. The distribution service ticks time
-- into the refineries and pays them out to the pending yield of the stake manager. The world
-- itself and the chain layer are not modelled.
--
-- Handles is server/verification/handles.ts, the chat handles: Owners follows claims that are
-- answered one after the other, Races two that overlap.
--
-- Refinery is server/game/refinery-manager.ts: Split is the split of a yield in doubles and
-- Rounding its error, Payout what a payout makes up, Paying and History the tokens over any
-- calls, Forecast the estimate of a share. Distribution is server/game/distribution-service.ts
-- over it: Ticks counts the time of the miners, Payout credits them in the stake manager.
--
-- Expeditions is server/game/expedition-tracker.ts over the stake manager, the registry and the
-- cooldowns: Owners is the invariant on who is on which expedition, Steps that each call keeps
-- it, History any calls.
--
-- Every loop is over a list of entries, but for the search of the spacing of the doubles
-- (Refinery/Split), which has fuel for 53 doublings; Refinery/Rounding shows that they are
-- enough for a product of 106 bits.
--
-- Not modelled: the user interface, the network gateway, storage drivers, the admin pages and
-- the scripts, which are input and output around these parts; and, of the game economy, how a
-- raid is decided and what it pays, raids of syndicates, discoveries and meteors, and the game
-- world that wires the parts.
pub mod Prelude
pub mod JsMap
pub mod Text
pub mod RaidVault
pub mod HolderTracker
pub mod BetEscrow
pub mod Syndicate
pub mod Cooldowns
pub mod EmissionGovernor
pub mod AsteroidRegistry
pub mod Power
pub mod StakeManager
pub mod Handles
pub mod Refinery
pub mod Distribution
pub mod Expeditions
