-- ===== src/Kitty.antt =====
-- Software Engineering/Semester Final Project: KittyWonderland card game/src: the cards, decks,
-- entities and board of the game, and its turns.
pub mod Random
pub mod Cards
pub mod Deck
pub mod Board
pub mod Entity
pub mod Game
pub mod Round
pub mod Move
pub mod Play
pub mod Samples
mod Tests
